-- ===== src/Rfc2231.antt =====
-- src/rfc2231.rs: encoded MIME parameters.
pub mod Syntax
pub mod Decode
pub mod Headers
