-- ===== src/Redact.antt =====
-- The redaction of email addresses, transform/tredactemail.
pub mod Email
pub mod Masked
pub mod Signs
pub mod Loop
mod Tests
