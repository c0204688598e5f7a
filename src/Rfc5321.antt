-- ===== src/Rfc5321.antt =====
-- src/rfc5321.rs: parsers for SMTP commands.
pub mod Policy
pub mod Params
pub mod Mailboxes
pub mod Commands
