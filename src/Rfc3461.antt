-- ===== src/Rfc3461.antt =====
-- src/rfc3461.rs: the SMTP extension for delivery status notifications.
pub mod Xtext
pub mod MailParams
pub mod Notify
pub mod Orcpt
