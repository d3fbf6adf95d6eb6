-- ===== src/Rules.antt =====
-- pkg/rules: the message as the rules see it, and the authentication results that it reports.
pub mod Fields
pub mod Context
pub mod Address
pub mod Mime
pub mod Message
pub mod Reported
