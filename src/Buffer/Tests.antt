-- ===== src/Buffer/Tests.antt =====
-- The theorems on the hybrid buffer at concrete inputs.
use slog_agent.Base.{◌+◌, true, false, [], ◌∷◌, some, ◌≡◌, refl, arith, codes}
use slog_agent.Buffer.Disk.{LogChunk, zero_gauge, add, sub}
use slog_agent.Buffer.Operator.{Operator, written, unload_chunk}
use slog_agent.Buffer.Manager.{Manager, new_manager}
use slog_agent.Buffer.Bufferer.{Bufferer, new_bufferer, waiting, accept, feed, load_to_output, push}
use slog_agent.Buffer.Accounting.{IsCounted}
use slog_agent.Buffer.Sound.{IsSound}
use slog_agent.Buffer.Steps.{Reach, here, next, accepts, feeds, loads, pushes, Reach-IsSound}
use slog_agent.Buffer.Space.{AtMost, unload_chunk-AtMost, accept_overflow}

abbrev op : Operator
op = record {
  maybe_dir = some [];
  match_chunk_id = λ id. true;
  persistent_chunks = zero_gauge;
  persistent_chunk_bytes = zero_gauge;
  io_errors = 0;
  max_total_bytes = 100;
}

abbrev chunk_a : LogChunk
chunk_a = record { id = codes "a.ff"; data_ = some (codes "abc"); saved = false }

abbrev chunk_b : LogChunk
chunk_b = record { id = codes "b.ff"; data_ = some (codes "de"); saved = false }

abbrev man : Manager
man = new_manager op false

man-IsCounted : IsCounted man 0
unfolding new_manager
man-IsCounted = record { pending = refl; inputs = refl; outputs = refl }

abbrev fed : Bufferer
fed = push (load_to_output true true (feed (accept written (new_bufferer man 3 2) chunk_a)))

Reach-fed : Reach (new_bufferer man 3 2) fed
Reach-fed = next (next (next (next here (accepts written chunk_a)) feeds) (loads true true)) pushes

Reach-IsSound_example : IsSound fed
Reach-IsSound_example = Reach-IsSound man 3 2 man-IsCounted Reach-fed

-- A full queue of one chunk, with one more chunk for output.
abbrev full : Bufferer
full = record {
  chunk_man = record man { pending_chunks = record { up = 2; down = 0 }; input_transient = 2 };
  max_in_queue = 1;
  max_in_memory = 2;
  input_channel = chunk_a ∷ [];
  output_channel = chunk_b ∷ [];
  hand = waiting;
  taken = [];
  queued_transient = record { up = 1; down = 0 };
  queued_persistent = zero_gauge;
  num_saved = 0;
}

unload_chunk-AtMost_example : AtMost (unload_chunk written op chunk_a).2.persistent_chunk_bytes 100
unload_chunk-AtMost_example = unload_chunk-AtMost written op chunk_a (omega arith)

full_operator : full.chunk_man.operator ≡ op
unfolding new_manager
full_operator = refl

accept_overflow_example :
    ((accept written full chunk_a).chunk_man.operator.persistent_chunk_bytes
      ≡ add 3 full.chunk_man.operator.persistent_chunk_bytes)
    × ((accept written full chunk_a).chunk_man.operator.persistent_chunks
        ≡ sub 1 (add 1 full.chunk_man.operator.persistent_chunks))
    × ((accept written full chunk_a).chunk_man.dropped ≡ full.chunk_man.dropped + 1)
    × ((accept written full chunk_a).input_channel ≡ full.input_channel)
accept_overflow_example =
    accept_overflow full chunk_a (codes "abc") [] (omega arith) (omega arith) refl refl
      (rw full_operator) (rw full_operator (omega arith))
