-- ===== src/Buffer/Manager.antt =====
-- buffer/hybridbuffer/chunkmanager.go: the operator's calls with the counters of pending, consumed,
-- left and dropped chunks.
use slog_agent.Base.{ℕ, ◌+◌, Bool, true, false, ◌||◌, not, if◌then◌else◌}
use slog_agent.Buffer.Disk.{LogChunk, Gauge, zero_gauge, add, sub}
use slog_agent.Buffer.Operator
use slog_agent.Buffer.Operator.{
  Operator, has_dir, load_chunk, unload_chunk, remove_chunk, on_chunk_recovered, WriteResult,
}

pub record Manager : Type 0 where
  pub operator : Operator
  pub send_all_at_end : Bool
  pub pending_chunks : Gauge
  pub input_transient : ℕ
  pub input_persistent : ℕ
  pub consumed : ℕ
  pub leftover : ℕ
  pub dropped : ℕ

unfoldable pub new_manager : Operator → Bool → Manager
unfolding has_dir
new_manager op send_all_at_end = record {
  operator = op;
  send_all_at_end = send_all_at_end || not (has_dir op);
  pending_chunks = zero_gauge;
  input_transient = 0;
  input_persistent = 0;
  consumed = 0;
  leftover = 0;
  dropped = 0;
}

unfoldable pub on_chunk_dropped : Manager → LogChunk → Manager
on_chunk_dropped man chunk = record man {
  operator = Operator.on_chunk_dropped man.operator chunk;
  pending_chunks = sub 1 man.pending_chunks;
  dropped = man.dropped + 1;
}

-- A Boolean result, the chunk behind the pointer, and the manager.
abbrev pub Outcome : Type 0
Outcome = Bool × LogChunk × Manager

abbrev pub or_drop : Manager → Operator.Outcome → Outcome
or_drop man (true, chunk, op) = (true, chunk, record man { operator = op })
or_drop man (false, chunk, op) =
    (false, chunk, on_chunk_dropped (record man { operator = op }) chunk)

unfoldable pub load_or_drop_chunk : Bool → Manager → LogChunk → Outcome
unfolding on_chunk_dropped
load_or_drop_chunk io man chunk = or_drop man (load_chunk io man.operator chunk)

unfoldable pub unload_or_drop_chunk : WriteResult → Manager → LogChunk → Outcome
unfolding on_chunk_dropped
unload_or_drop_chunk io man chunk = or_drop man (unload_chunk io man.operator chunk)

unfoldable pub on_chunk_input : Bool → Manager → Manager
on_chunk_input loaded man =
    if loaded
    then record man {
      pending_chunks = add 1 man.pending_chunks;
      input_transient = man.input_transient + 1;
    }
    else record man {
      pending_chunks = add 1 man.pending_chunks;
      input_persistent = man.input_persistent + 1;
    }

unfoldable pub on_chunk_input_recovered : Bool → Manager → LogChunk → Manager
on_chunk_input_recovered io man chunk = record man {
  operator = on_chunk_recovered io man.operator chunk;
  pending_chunks = add 1 man.pending_chunks;
  input_persistent = man.input_persistent + 1;
}

unfoldable pub on_chunk_consumed : Bool → Manager → LogChunk → Manager
on_chunk_consumed io man chunk = record man {
  operator = remove_chunk io man.operator chunk;
  pending_chunks = sub 1 man.pending_chunks;
  consumed = man.consumed + 1;
}

unfoldable pub on_chunk_leftover : WriteResult → Manager → LogChunk → Manager
on_chunk_leftover io man chunk = record man {
  operator = (unload_chunk io man.operator chunk).2;
  pending_chunks = sub 1 man.pending_chunks;
  leftover = man.leftover + 1;
}

unfoldable pub on_chunk_corrupted : Bool → Manager → LogChunk → Manager
on_chunk_corrupted io man chunk = record man {
  operator = remove_chunk io man.operator chunk;
  pending_chunks = sub 1 man.pending_chunks;
  dropped = man.dropped + 1;
}
