-- ===== src/Chunk/Tests.antt =====
-- The theorems on chunks at concrete inputs.
use slog_agent.Base.{◌+◌, [], ◌∷◌, ◌++◌, some, none, refl, arith, codes}
use slog_agent.Pipeline.Worker.{IsChunkMaker}
use slog_agent.Chunk.Id.{ChunkIdGenerator, generate_all, InOrder, generate_all-InOrder}
use slog_agent.Chunk.Packer.{ChunkFormat, chunk_data, MessagePacker, write_stream, flush_buffer}
use slog_agent.Chunk.Laws.{buffered, as_output, Encodes, as_output-IsChunkMaker}
use slog_agent.Chunk.Limits.{Held, Made, write_stream-Made}

abbrev generator : ChunkIdGenerator
generator = record { epoch_nano = 5; sequence = 0; suffix = codes ".ff" }

generate_all-InOrder_example : InOrder (generate_all (7 ∷ 7 ∷ 9 ∷ []) generator)
generate_all-InOrder_example =
    generate_all-InOrder (7 ∷ 7 ∷ 9 ∷ []) generator
      (omega arith, omega arith, (omega arith, omega arith, (omega arith, omega arith, tt)))
      (omega arith)

-- Two records at most, of ten bytes together, without a compressor.
abbrev format : ChunkFormat
format = record {
  max_records = 2;
  max_bytes = 10;
  compress = none;
  encode = some (λ data_ params. some (codes "<" ++ data_));
}

format-Encodes : Encodes format
unfolding chunk_data
format-Encodes chunk = (codes "<" ++ chunk.written, refl)

abbrev packer : MessagePacker
packer = record {
  current_chunk = none;
  generator = generator;
  clock = λ k. 7 + k;
  num_generated = 0;
}

as_output-IsChunkMaker_example : IsChunkMaker buffered (as_output format (λ r. (codes "x", r)))
as_output-IsChunkMaker_example = as_output-IsChunkMaker format (λ r. (codes "x", r)) format-Encodes

write_stream-Made_example :
    (Held format (write_stream format packer (codes "abc")).0.current_chunk
      × Made format (write_stream format packer (codes "abc")).1)
    × (Held format (flush_buffer format packer).0.current_chunk
        × Made format (flush_buffer format packer).1)
write_stream-Made_example = write_stream-Made format packer (codes "abc") format-Encodes tt
