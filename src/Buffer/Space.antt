-- ===== src/Buffer/Space.antt =====
-- What `chunkOperator` does to the disk, and to the gauges of what is on it.
use slog_agent.Base.{
  ℕ, ◌+◌, ◌/◌, ◌≤◌, true, false, none, some, ◌≡◌, refl, arith, leb, ltb, length, Bytes,
}
use slog_agent.Buffer.Disk.{LogChunk, Gauge, add, sub, Files, put_file}
use slog_agent.Buffer.Operator
use slog_agent.Buffer.Operator.{
  Operator, WriteResult, written, failed, data_length, unload_chunk, remove_chunk,
}
use slog_agent.Buffer.Manager.{on_chunk_input, unload_or_drop_chunk, on_chunk_dropped}
use slog_agent.Buffer.Bufferer.{Bufferer, accept, accept_unloaded, enqueue}

-- The gauge shows at most `n`.
abbrev pub AtMost : Gauge → ℕ → Type 0
AtMost g n = g.up ≤ n + g.down

-- Saving a chunk never brings the gauge of bytes over the limit, whatever the write does.
pub unload_chunk-AtMost :
    (io : WriteResult) (op : Operator) (chunk : LogChunk)
    → AtMost op.persistent_chunk_bytes op.max_total_bytes
    → AtMost (unload_chunk io op chunk).2.persistent_chunk_bytes op.max_total_bytes
unfolding unload_chunk
unload_chunk-AtMost written op chunk h = ground arith
unload_chunk-AtMost (failed left) op chunk h = ground arith

-- What a successful save returns.
unload_chunk_lem :
    (op : Operator) (chunk : LogChunk) (d : Bytes) (files : Files)
    → chunk.saved ≡ false
    → chunk.data_ ≡ some d
    → op.maybe_dir ≡ some files
    → AtMost (add (length d) op.persistent_chunk_bytes) op.max_total_bytes
    → unload_chunk written op chunk ≡ (
      true,
      record chunk { data_ = none; saved = true },
      record op {
        maybe_dir = some (put_file chunk.id d files);
        persistent_chunks = add 1 op.persistent_chunks;
        persistent_chunk_bytes = add (length d) op.persistent_chunk_bytes;
      },
    )
unfolding unload_chunk
unload_chunk_lem op chunk d files s e dir space = ground arith

-- `OnChunkDropped` on a chunk that is on disk and not in memory takes one chunk off the gauges and
-- no byte, although the chunk's bytes were added when it was saved: a chunk that `Accept` saves and
-- then drops at a full queue leaves its length in the gauge of bytes, and the gauge of chunks as it was.
pub accept_overflow :
    (buf : Bufferer) (chunk : LogChunk) (d : Bytes) (files : Files)
    → buf.max_in_memory / 2 ≤ length buf.output_channel
    → buf.max_in_queue ≤ length buf.input_channel
    → chunk.saved ≡ false
    → chunk.data_ ≡ some d
    → buf.chunk_man.operator.maybe_dir ≡ some files
    → AtMost
        (add (length d) buf.chunk_man.operator.persistent_chunk_bytes)
        buf.chunk_man.operator.max_total_bytes
    → ((accept written buf chunk).chunk_man.operator.persistent_chunk_bytes
        ≡ add (length d) buf.chunk_man.operator.persistent_chunk_bytes)
      × ((accept written buf chunk).chunk_man.operator.persistent_chunks
          ≡ sub 1 (add 1 buf.chunk_man.operator.persistent_chunks))
      × ((accept written buf chunk).chunk_man.dropped ≡ buf.chunk_man.dropped + 1)
      × ((accept written buf chunk).input_channel ≡ buf.input_channel)
unfolding accept accept_unloaded enqueue unload_or_drop_chunk on_chunk_input on_chunk_dropped
    Operator.on_chunk_dropped
accept_overflow buf chunk d files full queue s e dir space =
    let full_test : leb (buf.max_in_memory / 2) (length buf.output_channel) ≡ true = ground arith in
    let queue_test : ltb (length buf.input_channel) buf.max_in_queue ≡ false = ground arith in
    rw (full_test, unload_chunk_lem buf.chunk_man.operator chunk d files s e dir space, queue_test)
      (ground arith, ground arith, refl, refl)
