-- ===== src/Dkim.antt =====
-- pkg/authverify/dkim.go: the signatures of a message, with the hash and the signature schemes as
-- parameters.
pub mod Fields
pub mod Tags
pub mod Canonical
pub mod Key
pub mod SignedInput
pub mod Outcome
pub mod Signature
pub mod Result
