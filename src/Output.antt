-- ===== src/Output.antt =====
-- What the outputs do with a record: the rewriting of field values, rewrite/, and transform/tunescape.
pub mod Rewrite
pub mod Event
mod Tests
