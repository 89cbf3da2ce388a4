-- ===== src/Chunk/Packer.antt =====
-- output/shared/messagepacker.go and chunkfactory.go, with the chunks of
-- output/fluentdforward/chunk.go. Writing to a buffer in memory does not fail. The compressor and the
-- encoder are functions of what was written; `streams` records the writes.
use slog_agent.Base.{
  ℕ, suc, ◌+◌, Bool, true, false, ◌&&◌, List, [], ◌∷◌, ◌++◌, Option, none, some, ltb, leb,
  if◌then◌else◌, length, Bytes,
}
use slog_agent.Buffer.Disk.{LogChunk}
use slog_agent.Chunk.Id.{ChunkIdGenerator, generate}

pub record EncodeChunkParams : Type 0 where
  pub id : Bytes
  pub num_records : ℕ
  pub num_bytes : ℕ
  pub is_compressed : Bool

-- `compress` stands for the closed compressor, `encode` for `EncodeChunk`; `none` for nil.
pub record ChunkFormat : Type 0 where
  pub max_records : ℕ
  pub max_bytes : ℕ
  pub compress : Option (Bytes → Bytes)
  pub encode : Option (Bytes → EncodeChunkParams → Option Bytes)

pub record IntermediateChunk : Type 0 where
  pub id : Bytes
  pub num_records : ℕ
  pub num_bytes : ℕ
  pub written : Bytes
  pub streams : List Bytes

-- `Write`
unfoldable pub write : Bytes → IntermediateChunk → IntermediateChunk
write data_ chunk = record {
  id = chunk.id;
  num_records = suc chunk.num_records;
  num_bytes = chunk.num_bytes + length data_;
  written = chunk.written ++ data_;
  streams = chunk.streams ++ data_ ∷ [];
}

-- `CanAppendData`; a limit of 0 is no limit.
unfoldable pub can_append_data : ChunkFormat → ℕ → IntermediateChunk → Bool
can_append_data format data_length chunk =
    if ltb 0 format.max_records && leb format.max_records chunk.num_records
    then false
    else if ltb 0 format.max_bytes && ltb format.max_bytes (chunk.num_bytes + data_length)
    then false
    else true

abbrev compressed : Option (Bytes → Bytes) → Bytes → Bytes
compressed none data_ = data_
compressed (some f) data_ = f data_

abbrev is_some {ℓ} : {A : Type ℓ} → Option A → Bool
is_some none = false
is_some (some a) = true

abbrev pub encoded :
    Option (Bytes → EncodeChunkParams → Option Bytes) → Bytes → EncodeChunkParams → Option Bytes
encoded none data_ params = some data_
encoded (some f) data_ params = f data_ params

-- The data of the finished chunk; `none` for an error of the encoder.
unfoldable pub chunk_data : ChunkFormat → IntermediateChunk → Option Bytes
chunk_data format chunk = encoded format.encode (compressed format.compress chunk.written) (record {
  id = chunk.id;
  num_records = chunk.num_records;
  num_bytes = chunk.num_bytes;
  is_compressed = is_some format.compress;
})

-- `FinalizeChunk`; the streams that the chunk is made of go with it.
unfoldable pub finalize_chunk :
    ChunkFormat → IntermediateChunk → Option (LogChunk × IntermediateChunk)
unfolding chunk_data
finalize_chunk format chunk = elim (chunk_data format chunk) [
  | none ↦ none
  | some d ↦ some (record { id = chunk.id; data_ = some d; saved = false }, chunk)
]

-- The packer, with its generator of IDs and the readings of the clock to come.
pub record MessagePacker : Type 0 where
  pub current_chunk : Option IntermediateChunk
  pub generator : ChunkIdGenerator
  pub clock : ℕ → ℕ
  pub num_generated : ℕ

abbrev pub Finished : Type 0
Finished = Option (LogChunk × IntermediateChunk)

-- `NewChunk` of the factory. The shared write buffer is empty then.
abbrev pub new_chunk : Bytes → IntermediateChunk
new_chunk id = record { id = id; num_records = 0; num_bytes = 0; written = []; streams = [] }

-- The end of `FlushBuffer`. On an error of the encoder the chunk stays, and its write buffer is reset.
abbrev pub after_finalize : IntermediateChunk → Finished → MessagePacker → MessagePacker × Finished
after_finalize chunk none p =
    (record p { current_chunk = some (record chunk { written = [] }) }, none)
after_finalize chunk (some out) p = (record p { current_chunk = none }, some out)

abbrev pub flush_current :
    ChunkFormat → Option IntermediateChunk → MessagePacker → MessagePacker × Finished
flush_current format none p = (p, none)
flush_current format (some chunk) p = after_finalize chunk (finalize_chunk format chunk) p

-- `FlushBuffer`
unfoldable pub flush_buffer : ChunkFormat → MessagePacker → MessagePacker × Finished
unfolding finalize_chunk
flush_buffer format p = flush_current format p.current_chunk p

-- The first part of `WriteStream`: a chunk that has no room is finished.
abbrev pub make_room :
    ChunkFormat → Bytes → Option IntermediateChunk → MessagePacker → MessagePacker × Finished
make_room format stream none p = (p, none)
make_room format stream (some chunk) p =
    if can_append_data format (length stream) chunk then (p, none) else flush_buffer format p

-- The rest of `WriteStream`, on the current chunk or a new one.
abbrev pub write_current : Bytes → Option IntermediateChunk → MessagePacker → MessagePacker
write_current stream (some chunk) p = record p { current_chunk = some (write stream chunk) }
write_current stream none p =
    let (id, generator) = generate (p.clock p.num_generated) p.generator in
    record p {
      current_chunk = some (write stream (new_chunk id));
      generator = generator;
      num_generated = suc p.num_generated;
    }

abbrev write_after : Bytes → MessagePacker × Finished → MessagePacker × Finished
write_after stream (p, out) = (write_current stream p.current_chunk p, out)

-- `WriteStream`
unfoldable pub write_stream : ChunkFormat → MessagePacker → Bytes → MessagePacker × Finished
unfolding can_append_data flush_buffer write generate
write_stream format p stream = write_after stream (make_room format stream p.current_chunk p)
