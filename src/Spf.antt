-- ===== src/Spf.antt =====
-- pkg/authverify/spf.go: the evaluation of SPF records, with its limits.
pub mod Types
pub mod Macros
pub mod Mechanisms
pub mod Check
pub mod Client
