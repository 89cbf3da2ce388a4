-- ===== src/Transform.antt =====
-- The transforms on log records: base/bmatch, base/bsupport/logtransforms.go, and transform/.
pub mod Matcher
pub mod Run
pub mod Drop
pub mod Fits
pub mod Safety
pub mod Fields
mod Tests
