-- ===== src/Examples.antt =====
-- Concrete messages, sessions and domains, and the properties applied to them.
mod Delivery
mod Session
mod Spf
mod Dmarc
mod Signed
mod Dkim
mod Arc
mod Dane
mod Dns
mod Verify
mod Rules
mod Transport
