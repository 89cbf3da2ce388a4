-- ===== src/Time.antt =====
-- The parsing of timestamps, transform/tparsetime.
pub mod Rfc3339
pub mod Printed
mod Tests
