-- ===== src/Pipeline/Worker.antt =====
-- base/bsupport/logprocessingworker.go: transforms, serialization and chunk making for one pipeline.
-- Streams are byte strings; what makes chunks of them is an interface, and a chunk is told by the
-- streams it holds. The release of records, metrics of streams and chunks, and time are left out.
use slog_agent.Base.{ℕ, suc, List, [], ◌∷◌, ◌++◌, Option, none, some, ◌≡◌, if◌then◌else◌, Bytes}
use slog_agent.Input.Parser.{LogRecord}
use slog_agent.Transform.Run.{Transforms, run_transforms, and_then}

-- A chunk that an output gives away, or nil.
abbrev pub Chunk : Type 0
Chunk = List Bytes

abbrev pub streams_of : Option Chunk → List Bytes
streams_of none = []
streams_of (some chunk) = chunk

-- `LogSerializer` and `LogChunkMaker`, with the state of the latter. `SerializeRecord` may set the
-- flag of a record that the next output gets.
pub record OutputInterface (S : Type 0) : Type 0 where
  pub serialize_record : LogRecord → Bytes × LogRecord
  pub write_stream : S → Bytes → S × Option Chunk
  pub flush_buffer : S → S × Option Chunk

-- What a chunk maker promises about the streams it has buffered: none is lost, added or moved.
pub record IsChunkMaker {S : Type 0} (buffered : S → List Bytes) (ops : OutputInterface S)
    : Type 0 where
  pub write_law :
      (s : S) (b : Bytes)
      → streams_of (ops.write_stream s b).1 ++ buffered (ops.write_stream s b).0
        ≡ buffered s ++ b ∷ []
  pub flush_law : (s : S) → streams_of (ops.flush_buffer s).1 ≡ buffered s
  pub empty_law : (s : S) → buffered (ops.flush_buffer s).0 ≡ []

-- `accepted` records the streams of the chunks that `AcceptChunk` was called with.
pub record Output (S : Type 0) : Type 0 where
  pub ops : OutputInterface S
  pub state : S
  pub accepted : List Bytes

abbrev pub after_chunk : {S : Type 0} → Output S → S × Option Chunk → Output S
after_chunk o (s, chunk) = record o { state = s; accepted = o.accepted ++ streams_of chunk }

-- The loop over the outputs in `onInput`.
unfoldable pub write_record : {S : Type 0} → LogRecord → List (Output S) → List (Output S)
write_record r [] = []
write_record r (o ∷ os) =
    after_chunk o (o.ops.write_stream o.state (o.ops.serialize_record r).0)
    ∷ write_record (o.ops.serialize_record r).1 os

unfoldable pub flush_chunk : {S : Type 0} → List (Output S) → List (Output S)
flush_chunk [] = []
flush_chunk (o ∷ os) = after_chunk o (o.ops.flush_buffer o.state) ∷ flush_chunk os

pub record LogProcessingWorker (S : Type 0) : Type 0 where
  pub transform_list : Transforms
  pub output_list : List (Output S)
  pub passed : ℕ
  pub dropped : ℕ

-- One record of `onInput`; `none` when a transform panics.
unfoldable pub on_record :
    {S : Type 0} → LogRecord → LogProcessingWorker S → Option (LogProcessingWorker S)
unfolding run_transforms write_record
on_record r w = and_then (run_transforms w.transform_list r) λ result. some (
    if result.0
    then record w {
      transform_list = result.2;
      output_list = write_record (result.1) w.output_list;
      passed = suc w.passed;
    }
    else record w { transform_list = result.2; dropped = suc w.dropped })

unfoldable pub on_input :
    {S : Type 0} → List LogRecord → LogProcessingWorker S → Option (LogProcessingWorker S)
unfolding on_record
on_input [] w = some w
on_input (r ∷ rs) w = and_then (on_record r w) (on_input rs)

unfoldable pub on_stop : {S : Type 0} → LogProcessingWorker S → LogProcessingWorker S
unfolding flush_chunk
on_stop w = record w { output_list = flush_chunk w.output_list }
