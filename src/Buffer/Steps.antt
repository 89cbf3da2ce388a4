-- ===== src/Buffer/Steps.antt =====
-- The buffer as a system of concurrent steps, and the invariant that they keep.
use slog_agent.Base.{
  ◌-◌, ℕ, suc, ◌+◌, Bool, List, ◌∷◌, ◌++◌, ◌≡◌, arith, length, length-append, ap, ◌∙◌, All,
}
use slog_agent.Buffer.Disk.{LogChunk}
use slog_agent.Buffer.Operator.{WriteResult}
use slog_agent.Buffer.Manager.{Manager, on_chunk_consumed, on_chunk_leftover}
use slog_agent.Buffer.Bufferer.{
  Bufferer, new_bufferer, accept, recover_existing_chunks, feed, load_to_output, push, take_output,
}
use slog_agent.Buffer.Accounting.{hand_count, IsCounted, consumed-IsCounted, leftover-IsCounted}
use slog_agent.Buffer.Sound.{
  IsSound, IsUnloaded, outside, accept-IsSound, recover-IsSound, feed-IsSound, load-IsSound,
  push-IsSound, take-IsSound,
}

-- The steps of the accepting worker, the feeder and the consumers, in any interleaving.
pub data Step (buf : Bufferer) : Bufferer → Type 0 where
  accepts : (io : WriteResult) (chunk : LogChunk) → Step buf (accept io buf chunk)
  recovers :
      (found : List (LogChunk × Bool))
      → All IsUnloaded found
      → Step buf (recover_existing_chunks found buf)
  feeds : Step buf (feed buf)
  loads : (io io' : Bool) → Step buf (load_to_output io io' buf)
  pushes : Step buf (push buf)
  takes : Step buf (take_output buf)
  consumes :
      (io : Bool) (xs ys : List LogChunk) (c : LogChunk)
      → buf.taken ≡ xs ++ c ∷ ys
      → Step buf (record buf { taken = xs ++ ys; chunk_man = on_chunk_consumed io buf.chunk_man c })
  leaves :
      (io : WriteResult) (xs ys : List LogChunk) (c : LogChunk)
      → buf.taken ≡ xs ++ c ∷ ys
      → Step buf (record buf { taken = xs ++ ys; chunk_man = on_chunk_leftover io buf.chunk_man c })

pub data Reach (start : Bufferer) : Bufferer → Type 0 where
  here : Reach start start
  next : {a b : Bufferer} → Reach start a → Step a b → Reach start b

taken-IsSound :
    (buf : Bufferer) (man : Manager) (xs ys : List LogChunk) (c : LogChunk)
    → buf.taken ≡ xs ++ c ∷ ys
    → (IsCounted buf.chunk_man (suc (outside buf + hand_count buf.hand - 1))
        → IsCounted man (outside buf + hand_count buf.hand - 1))
    → IsSound buf
    → IsSound (record buf { taken = xs ++ ys; chunk_man = man })
taken-IsSound buf man xs ys c e change s =
    let size = ap length e ∙ length-append xs (c ∷ ys) in
    let size' = length-append xs ys in
    let counted = change (ground (arith, size)) in ground (arith, size, size')

Step-IsSound : {a b : Bufferer} → Step a b → IsSound a → IsSound b
Step-IsSound {a} (accepts io chunk) s = accept-IsSound io a chunk s
Step-IsSound {a} (recovers found u) s = recover-IsSound found a u s
Step-IsSound {a} feeds s = feed-IsSound a s
Step-IsSound {a} (loads io io') s = load-IsSound io io' a s
Step-IsSound {a} pushes s = push-IsSound a s
Step-IsSound {a} takes s = take-IsSound a s
Step-IsSound {a} (consumes io xs ys c e) s =
    taken-IsSound a _ xs ys c e (consumed-IsCounted a.chunk_man _ io c) s
Step-IsSound {a} (leaves io xs ys c e) s =
    taken-IsSound a _ xs ys c e (leftover-IsCounted a.chunk_man _ io c) s

new_bufferer-IsSound : (man : Manager) (q m : ℕ) → IsCounted man 0 → IsSound (new_bufferer man q m)
unfolding new_bufferer
new_bufferer-IsSound man q m c = ground arith

-- In every state that a new buffer can reach by accepting, recovering, feeding, loading and
-- forwarding chunks and by the reports of its consumers, with any results of the system calls: the
-- gauge of pending chunks is the number of chunks that the buffer and its consumers hold, and the
-- sum of input less consumed, left and dropped; the gauges of the queue are the numbers of loaded
-- and unloaded chunks in it; and neither channel is over its size.
pub Reach-IsSound :
    (man : Manager) (q m : ℕ) {buf : Bufferer}
    → IsCounted man 0
    → Reach (new_bufferer man q m) buf
    → IsSound buf
Reach-IsSound man q m c here = new_bufferer-IsSound man q m c
Reach-IsSound man q m c (next r st) = Step-IsSound st (Reach-IsSound man q m c r)
