-- ===== src/Delivery.antt =====
-- cmd/mailscript/delivery.go: what becomes of a message, the envelope, and the bytes on the wire.
pub mod Policy
pub mod Envelope
pub mod Wire
pub mod Headers
