-- ===== src/Rfc5322.antt =====
-- src/rfc5322.rs: parsers for Internet messages.
pub mod Policy
pub mod Comments
pub mod Words
pub mod Addresses
