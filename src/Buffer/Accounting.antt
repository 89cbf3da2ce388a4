-- ===== src/Buffer/Accounting.antt =====
-- The counters of the buffer against the chunks that it holds.
use slog_agent.Base.{ℕ, suc, ◌+◌, Bool, true, false, List, [], ◌∷◌, none, some, ◌≡◌, arith, length}
use slog_agent.Buffer.Disk.{LogChunk}
use slog_agent.Buffer.Operator.{WriteResult}
use slog_agent.Buffer.Manager.{
  Manager, load_or_drop_chunk, unload_or_drop_chunk, on_chunk_input, on_chunk_input_recovered,
  on_chunk_consumed, on_chunk_leftover, on_chunk_corrupted, on_chunk_dropped,
}
use slog_agent.Buffer.Bufferer.{Bufferer, Hand, waiting, received, ready}

abbrev pub hand_count : Hand → ℕ
hand_count waiting = 0
hand_count (received c) = 1
hand_count (ready c) = 1

-- The chunks in the buffer's queues, in the feeder's hand and with the consumers, and those that
-- the end of the feeder has saved on disk.
abbrev pub held : Bufferer → ℕ
held buf =
    length buf.input_channel
    + hand_count buf.hand
    + length buf.output_channel
    + length buf.taken
    + buf.num_saved

abbrev pub loaded_count : List LogChunk → ℕ
loaded_count [] = 0
loaded_count (c ∷ cs) = elim c.data_ [ none ↦ loaded_count cs | some d ↦ suc (loaded_count cs) ]

abbrev pub unloaded_count : List LogChunk → ℕ
unloaded_count [] = 0
unloaded_count (c ∷ cs) = elim c.data_ [
  | none ↦ suc (unloaded_count cs)
  | some d ↦ unloaded_count cs
]

-- What the counters of the manager say.
pub record IsCounted (man : Manager) (n : ℕ) : Type 0 where
  pub pending : man.pending_chunks.up ≡ man.pending_chunks.down + n
  pub inputs : man.pending_chunks.up ≡ man.input_transient + man.input_persistent
  pub outputs : man.pending_chunks.down ≡ man.consumed + man.leftover + man.dropped

-- The number held behind an operation that may drop the chunk.
abbrev pub kept : ℕ → Bool → ℕ
kept n true = suc n
kept n false = n

module _ (man : Manager) (n : ℕ) where
  pub input-IsCounted :
      (loaded : Bool) → IsCounted man n → IsCounted (on_chunk_input loaded man) (suc n)
  unfolding on_chunk_input
  input-IsCounted loaded c = ground arith

  pub recovered-IsCounted :
      (io : Bool) (chunk : LogChunk)
      → IsCounted man n
      → IsCounted (on_chunk_input_recovered io man chunk) (suc n)
  unfolding on_chunk_input_recovered
  recovered-IsCounted io chunk c = ground arith

  pub dropped-IsCounted :
      (chunk : LogChunk) → IsCounted man (suc n) → IsCounted (on_chunk_dropped man chunk) n
  unfolding on_chunk_dropped
  dropped-IsCounted chunk c = ground arith

  pub consumed-IsCounted :
      (io : Bool) (chunk : LogChunk)
      → IsCounted man (suc n)
      → IsCounted (on_chunk_consumed io man chunk) n
  unfolding on_chunk_consumed
  consumed-IsCounted io chunk c = ground arith

  pub leftover-IsCounted :
      (io : WriteResult) (chunk : LogChunk)
      → IsCounted man (suc n)
      → IsCounted (on_chunk_leftover io man chunk) n
  unfolding on_chunk_leftover
  leftover-IsCounted io chunk c = ground arith

  pub corrupted-IsCounted :
      (io : Bool) (chunk : LogChunk)
      → IsCounted man (suc n)
      → IsCounted (on_chunk_corrupted io man chunk) n
  unfolding on_chunk_corrupted
  corrupted-IsCounted io chunk c = ground arith

  pub load-IsCounted :
      (io : Bool) (chunk : LogChunk)
      → IsCounted man (suc n)
      → IsCounted (load_or_drop_chunk io man chunk).2 (kept n (load_or_drop_chunk io man chunk).0)
  unfolding load_or_drop_chunk
  load-IsCounted io chunk c = ground arith

  pub unload-IsCounted :
      (io : WriteResult) (chunk : LogChunk)
      → IsCounted man (suc n)
      → IsCounted
          (unload_or_drop_chunk io man chunk).2
          (kept n (unload_or_drop_chunk io man chunk).0)
  unfolding unload_or_drop_chunk
  unload-IsCounted io chunk c = ground arith
