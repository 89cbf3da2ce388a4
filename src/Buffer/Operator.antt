-- ===== src/Buffer/Operator.antt =====
-- buffer/hybridbuffer/chunkoperator.go: loading, saving and removing chunks, with the gauges of
-- what is on disk. A Boolean `io` says whether the operation's system call succeeds.
use slog_agent.Base.{
  ℕ, ◌+◌, Bool, true, false, Option, none, some, ltb, if◌then◌else◌, length, Bytes,
}
use slog_agent.Buffer.Disk.{LogChunk, Gauge, add, sub, Files, find_file, put_file, remove_file}

pub record Operator : Type 0 where
  pub maybe_dir : Option Files
  pub match_chunk_id : Bytes → Bool
  pub persistent_chunks : Gauge
  pub persistent_chunk_bytes : Gauge
  pub io_errors : ℕ
  pub max_total_bytes : ℕ

-- `len(chunk.Data)`
abbrev pub data_length : LogChunk → ℕ
data_length chunk = elim chunk.data_ [ none ↦ 0 | some d ↦ length d ]

unfoldable pub has_dir : Operator → Bool
has_dir op = elim op.maybe_dir [ none ↦ false | some fs ↦ true ]

abbrev io_error : Operator → Operator
io_error op = record op { io_errors = op.io_errors + 1 }

-- The result of an operation: its Boolean result, the chunk behind the pointer, the operator.
abbrev pub Outcome : Type 0
Outcome = Bool × LogChunk × Operator

load_file : Bool → LogChunk → Operator → Option Bytes → Outcome
load_file true chunk op (some content) = (true, record chunk { data_ = some content }, op)
load_file _ chunk op _ = (false, chunk, io_error op)

load_saved : Bool → Operator → LogChunk → Option Files → Outcome
load_saved io op chunk none = (false, chunk, op)
load_saved io op chunk (some files) = load_file io chunk op (find_file chunk.id files)

load_unloaded : Bool → Operator → LogChunk → Option Bytes → Outcome
load_unloaded io op chunk (some d) = (true, chunk, op)
load_unloaded io op chunk none =
    if chunk.saved then load_saved io op chunk op.maybe_dir else (false, chunk, op)

unfoldable pub load_chunk : Bool → Operator → LogChunk → Outcome
unfolding load_unloaded load_saved load_file
load_chunk io op chunk = load_unloaded io op chunk chunk.data_

-- A write that succeeds takes all the bytes. One that fails either cannot open the file, which
-- changes nothing, or leaves some content in it.
pub data WriteResult : Type 0 where
  written : WriteResult
  failed : Option Bytes → WriteResult

unfoldable pub leave_file : Bytes → Option Bytes → Files → Files
leave_file id none files = files
leave_file id (some content) files = put_file id content files

unfoldable pub write_chunk : WriteResult → Operator → LogChunk → Bytes → Files → Outcome
unfolding leave_file
write_chunk written op chunk d files = (
  true,
  record chunk { data_ = none; saved = true },
  record op {
    maybe_dir = some (put_file chunk.id d files);
    persistent_chunks = add 1 op.persistent_chunks;
    persistent_chunk_bytes = add (length d) op.persistent_chunk_bytes;
  },
)
write_chunk (failed left) op chunk d files =
    (false, chunk, io_error (record op { maybe_dir = some (leave_file chunk.id left files) }))

unload_data : WriteResult → Operator → LogChunk → Option Bytes → Option Files → Outcome
unload_data io op chunk none dir = (false, chunk, op)
unload_data io op chunk (some d) none = (false, chunk, op)
unload_data io op chunk (some d) (some files) =
    if ltb (op.max_total_bytes + op.persistent_chunk_bytes.down)
      (op.persistent_chunk_bytes.up + length d)
    then (false, chunk, op)
    else write_chunk io op chunk d files

unfoldable pub unload_chunk : WriteResult → Operator → LogChunk → Outcome
unfolding unload_data write_chunk leave_file
unload_chunk io op chunk =
    if chunk.saved then (true, chunk, op) else unload_data io op chunk chunk.data_ op.maybe_dir

-- One chunk less in the two gauges.
abbrev forget : LogChunk → Operator → Operator
forget chunk op = record op {
  persistent_chunks = sub 1 op.persistent_chunks;
  persistent_chunk_bytes = sub (data_length chunk) op.persistent_chunk_bytes;
}

remove_saved : Bool → Operator → LogChunk → Option Files → Operator
remove_saved io op chunk none = op
remove_saved false op chunk (some files) = io_error op
remove_saved true op chunk (some files) =
    forget chunk (record op { maybe_dir = some (remove_file chunk.id files) })

unfoldable pub remove_chunk : Bool → Operator → LogChunk → Operator
unfolding remove_saved
remove_chunk io op chunk = if chunk.saved then remove_saved io op chunk op.maybe_dir else op

unfoldable pub on_chunk_dropped : Operator → LogChunk → Operator
on_chunk_dropped op chunk = if chunk.saved then forget chunk op else op

stat_chunk : Operator → LogChunk → Option Bytes → Operator
stat_chunk op chunk none = io_error op
stat_chunk op chunk (some content) = record op {
  persistent_chunk_bytes = add (length content) op.persistent_chunk_bytes;
}

recover_size : Bool → Operator → LogChunk → Option Files → Operator
recover_size io op chunk none = op
recover_size false op chunk (some files) = io_error op
recover_size true op chunk (some files) = stat_chunk op chunk (find_file chunk.id files)

unfoldable pub on_chunk_recovered : Bool → Operator → LogChunk → Operator
unfolding recover_size stat_chunk
on_chunk_recovered io op chunk =
    recover_size io (record op { persistent_chunks = add 1 op.persistent_chunks }) chunk
      op.maybe_dir
