-- ===== src/Buffer/Shutdown.antt =====
-- `saveEverything`: what the end of the feeder does with the chunks that are left.
use slog_agent.Base.{ℕ, ◌+◌, List, [], ◌≡◌, ◌≢◌, length, ◌++◌}
use slog_agent.Buffer.Disk.{LogChunk}
use slog_agent.Buffer.Manager.{Manager}
use slog_agent.Buffer.Bufferer.{Bufferer, Hand, waiting, received, ready, last_input}
use slog_agent.Buffer.Accounting.{IsCounted}
use slog_agent.Buffer.Settled.{Settled}

-- The channels and the consumers' chunks are those of `a`.
pub record SameChunks (a b : Bufferer) : Type 0 where
  pub input_same : b.input_channel ≡ a.input_channel
  pub output_same : b.output_channel ≡ a.output_channel
  pub hand_same : b.hand ≡ a.hand
  pub taken_same : b.taken ≡ a.taken

-- The received chunk has an ID, as every chunk of a chunk maker and of the scan has.
abbrev pub HasId : Hand → Type 0
HasId waiting = Unit
HasId (received c) = c.id ≢ []
HasId (ready c) = c.id ≢ []

-- The chunks that are not with the consumers, in the order in which the end of the feeder has them.
abbrev pub left_chunks : Bufferer → List LogChunk
left_chunks buf = buf.input_channel ++ (last_input buf.hand ++ buf.output_channel)

-- What the end of the feeder makes of a buffer: the channels and the hand are empty, the consumers'
-- chunks are as they were, and each chunk is kept or lost, as the counters say.
pub record IsSaved (buf end : Bufferer) : Type 0 where
  pub no_input : end.input_channel ≡ []
  pub no_hand : end.hand ≡ waiting
  pub no_output : end.output_channel ≡ []
  pub same_taken : end.taken ≡ buf.taken
  pub counted : IsCounted end.chunk_man (length buf.taken + end.num_saved)
  pub num_kept : ℕ
  pub num_lost : ℕ
  pub settled :
      Settled buf.chunk_man.operator end.chunk_man.operator (left_chunks buf) num_kept num_lost
  pub all_saved : end.num_saved ≡ buf.num_saved + num_kept
  pub all_dropped : end.chunk_man.dropped ≡ buf.chunk_man.dropped + num_lost
