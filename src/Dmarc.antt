-- ===== src/Dmarc.antt =====
-- pkg/authverify/dmarc.go: the discovery and reading of DMARC records, alignment, and the verdict.
pub mod Record
pub mod Alignment
pub mod Verdict
