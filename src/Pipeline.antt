-- ===== src/Pipeline.antt =====
-- The worker of a pipeline, base/bsupport.
pub mod Worker
pub mod Order
mod Tests
