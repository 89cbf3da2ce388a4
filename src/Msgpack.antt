-- ===== src/Msgpack.antt =====
-- The writing of MessagePack, output/fastmsgpack, and its reading.
pub mod Writer
pub mod Decode
pub mod Laws
pub mod RoundTrip
