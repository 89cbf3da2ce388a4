-- ===== src/Extract.antt =====
-- The extraction of labels by boundaries and valid bytes, transform/textractspecial.
pub mod Pattern
pub mod Label
pub mod Search
pub mod Sound
pub mod Transform
mod Tests
