-- ===== src/Dane.antt =====
-- pkg/authverify/dane.go: which mail hosts of a domain commit to DANE, and whether a certificate that
-- a host presents is the one that it published.
pub mod Discovery
pub mod Certificate
pub mod Description
