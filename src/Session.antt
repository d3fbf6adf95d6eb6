-- ===== src/Session.antt =====
-- The SMTP session of cmd/mailscript/proxy.go and cmd/mailscript/submission.go: its state, a handler
-- for each command, the delivery, and the loop.
pub mod State
pub mod Replies
pub mod Auth
pub mod Deliver
pub mod Data
pub mod Loop
pub mod Reading
