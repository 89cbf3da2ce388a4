-- ===== src/Chunk.antt =====
-- The making of chunks, output/shared and output/fluentdforward/chunk.go.
pub mod Id
pub mod Packer
pub mod Laws
pub mod Limits
mod Tests
