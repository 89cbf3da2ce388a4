-- ===== src/Buffer/Sound.antt =====
-- The invariant of the buffer, and that each of its operations keeps it.
use slog_agent.Base.{
  ℕ, suc, ◌+◌, ◌/◌, ◌≤◌, ◌<◌, Bool, true, false, List, [], ◌∷◌, ◌++◌, none, ◌≡◌, refl, arith, leb,
  ltb, ltb→lt, length, length-append, Bool-cases, inl, inr, All,
}
use slog_agent.Buffer.Disk.{LogChunk, add}
use slog_agent.Buffer.Operator.{WriteResult}
use slog_agent.Buffer.Manager.{
  Manager, load_or_drop_chunk, unload_or_drop_chunk, on_chunk_input, on_chunk_input_recovered,
}
use slog_agent.Buffer.Bufferer.{
  Bufferer, Hand, waiting, received, ready, accept, accept_unloaded, enqueue,
  recover_existing_chunks, feed, feed_hand, feed_first, push_hand, take_first, load_hand,
  load_to_output, load_result, push, take_output,
}
use slog_agent.Buffer.Accounting.{
  kept, held, loaded_count, unloaded_count, IsCounted, input-IsCounted, recovered-IsCounted,
  dropped-IsCounted, corrupted-IsCounted, load-IsCounted, unload-IsCounted,
}

-- The gauges of the queue against its chunks, and the bounds of the two channels.
pub record IsQueued (buf : Bufferer) : Type 0 where
  pub transient :
      buf.queued_transient.up ≡ buf.queued_transient.down + loaded_count buf.input_channel
  pub persistent :
      buf.queued_persistent.up ≡ buf.queued_persistent.down + unloaded_count buf.input_channel
  pub queue_le : length buf.input_channel ≤ buf.max_in_queue
  pub memory_le : length buf.output_channel ≤ buf.max_in_memory

pub record IsSound (buf : Bufferer) : Type 0 where
  pub counted : IsCounted buf.chunk_man (held buf)
  pub queued : IsQueued buf

loaded_count-append :
    (xs ys : List LogChunk) → loaded_count (xs ++ ys) ≡ loaded_count xs + loaded_count ys
loaded_count-append [] ys = omega arith
loaded_count-append (c ∷ xs) ys = ground (arith, loaded_count-append xs ys)

unloaded_count-append :
    (xs ys : List LogChunk) → unloaded_count (xs ++ ys) ≡ unloaded_count xs + unloaded_count ys
unloaded_count-append [] ys = omega arith
unloaded_count-append (c ∷ xs) ys = ground (arith, unloaded_count-append xs ys)

enqueue-IsQueued : (buf : Bufferer) (chunk : LogChunk) → IsQueued buf → IsQueued (enqueue buf chunk)
unfolding enqueue
enqueue-IsQueued buf chunk q = ground (
  arith,
  loaded_count-append buf.input_channel (chunk ∷ []),
  unloaded_count-append buf.input_channel (chunk ∷ []),
  length-append buf.input_channel (chunk ∷ []),
)

enqueue-IsCounted :
    (buf : Bufferer) (chunk : LogChunk)
    → IsCounted buf.chunk_man (suc (held buf))
    → IsCounted (enqueue buf chunk).chunk_man (held (enqueue buf chunk))
unfolding enqueue
enqueue-IsCounted buf chunk c = ground (
  arith,
  length-append buf.input_channel (chunk ∷ []),
  dropped-IsCounted buf.chunk_man (held buf) chunk,
)

-- The part of `accept` behind the unloading.
accept_unloaded-IsQueued :
    (buf : Bufferer) (r : Bool × LogChunk × Manager)
    → IsQueued buf
    → IsQueued (accept_unloaded buf r)
unfolding accept_unloaded
accept_unloaded-IsQueued buf (true, chunk, man) q =
    enqueue-IsQueued (record buf { chunk_man = man }) chunk (ground arith)
accept_unloaded-IsQueued buf (false, chunk, man) q = ground arith

accept_unloaded-IsCounted :
    (buf : Bufferer) (r : Bool × LogChunk × Manager)
    → IsCounted r.2 (kept (held buf) r.0)
    → IsCounted (accept_unloaded buf r).chunk_man (held (accept_unloaded buf r))
unfolding accept_unloaded
accept_unloaded-IsCounted buf (true, chunk, man) c =
    enqueue-IsCounted (record buf { chunk_man = man }) chunk c
accept_unloaded-IsCounted buf (false, chunk, man) c = c

pub accept-IsSound :
    (io : WriteResult) (buf : Bufferer) (chunk : LogChunk)
    → IsSound buf
    → IsSound (accept io buf chunk)
unfolding accept
accept-IsSound io buf chunk s =
    let unloaded = on_chunk_input false buf.chunk_man in
    let loaded = on_chunk_input true buf.chunk_man in
    let n = held buf in
    elim (Bool-cases (leb (buf.max_in_memory / 2) (length buf.output_channel))) [
      | inl full ↦ rw full (record {
        counted = accept_unloaded-IsCounted buf (unload_or_drop_chunk io unloaded chunk) (
            unload-IsCounted unloaded n io chunk (input-IsCounted buf.chunk_man n false s.counted));
        queued = accept_unloaded-IsQueued buf (unload_or_drop_chunk io unloaded chunk) s.queued;
      })
      | inr room ↦ rw room (record {
        counted =
            enqueue-IsCounted (record buf { chunk_man = loaded }) chunk
              (input-IsCounted buf.chunk_man n true s.counted);
        queued = enqueue-IsQueued (record buf { chunk_man = loaded }) chunk (ground arith);
      })
    ]

-- A chunk as `ScanExistingChunks` lists it.
abbrev pub IsUnloaded : LogChunk × Bool → Type 0
IsUnloaded (chunk, io) = chunk.data_ ≡ none

recover_one-IsSound :
    (chunk : LogChunk) (io : Bool) (buf : Bufferer)
    → chunk.data_ ≡ none
    → IsSound buf
    → length buf.input_channel < buf.max_in_queue
    → IsSound (record buf {
      input_channel = buf.input_channel ++ chunk ∷ [];
      chunk_man = on_chunk_input_recovered io buf.chunk_man chunk;
      queued_persistent = add 1 buf.queued_persistent;
    })
recover_one-IsSound chunk io buf e s room =
    let c = recovered-IsCounted buf.chunk_man (held buf) io chunk s.counted in
    let longer = length-append buf.input_channel (chunk ∷ []) in
    record {
      counted = record {
        pending = omega (arith, c.pending, longer);
        inputs = c.inputs;
        outputs = c.outputs;
      };
      queued = record {
        transient = ground (arith, loaded_count-append buf.input_channel (chunk ∷ []));
        persistent = ground (arith, unloaded_count-append buf.input_channel (chunk ∷ []));
        queue_le = omega (arith, longer);
        memory_le = s.queued.memory_le;
      };
    }

pub recover-IsSound :
    (found : List (LogChunk × Bool)) (buf : Bufferer)
    → All IsUnloaded found
    → IsSound buf
    → IsSound (recover_existing_chunks found buf)
unfolding recover_existing_chunks
recover-IsSound [] buf u s = s
recover-IsSound ((chunk, io) ∷ found) buf (e, u) s =
    elim (Bool-cases (ltb (length buf.input_channel) buf.max_in_queue)) [
      | inr full ↦ rw (full, recover_existing_chunks) s
      | inl room ↦
          rw (room, recover_existing_chunks)
            (recover-IsSound found
              (record buf {
                input_channel = buf.input_channel ++ chunk ∷ [];
                chunk_man = on_chunk_input_recovered io buf.chunk_man chunk;
                queued_persistent = add 1 buf.queued_persistent;
              })
              u
              (recover_one-IsSound chunk io buf e s
                (ltb→lt (length buf.input_channel) buf.max_in_queue room)))
    ]

feed_first-IsSound :
    (buf : Bufferer) (cs : List LogChunk)
    → buf.input_channel ≡ cs
    → buf.hand ≡ waiting
    → IsSound buf
    → IsSound (feed_first buf cs)
unfolding feed_first
feed_first-IsSound buf [] e h s = s
feed_first-IsSound buf (c ∷ cs) e h s = ground arith

feed_hand-IsSound :
    (buf : Bufferer) (h : Hand) → buf.hand ≡ h → IsSound buf → IsSound (feed_hand buf h)
unfolding feed_hand
feed_hand-IsSound buf waiting e s = feed_first-IsSound buf buf.input_channel refl e s
feed_hand-IsSound buf _ e s = s

pub feed-IsSound : (buf : Bufferer) → IsSound buf → IsSound (feed buf)
unfolding feed
feed-IsSound buf s = feed_hand-IsSound buf buf.hand refl s

-- The chunks held outside the feeder's hand.
abbrev pub outside : Bufferer → ℕ
outside buf =
    length buf.input_channel + length buf.output_channel + length buf.taken + buf.num_saved

load_result-IsSound :
    (io : Bool) (buf : Bufferer) (r : Bool × LogChunk × Manager)
    → IsQueued buf
    → IsCounted r.2 (kept (outside buf) r.0)
    → IsSound (load_result io buf r)
unfolding load_result
load_result-IsSound io buf (false, chunk, man) q c = ground arith
load_result-IsSound io buf (true, chunk, man) q c =
    ground (arith, corrupted-IsCounted man (outside buf) io chunk)

load_hand-IsSound :
    (io io' : Bool) (buf : Bufferer) (h : Hand)
    → buf.hand ≡ h
    → IsSound buf
    → IsSound (load_hand io io' buf h)
unfolding load_hand
load_hand-IsSound io io' buf (received c) e s =
    load_result-IsSound io' buf (load_or_drop_chunk io buf.chunk_man c) s.queued
      (load-IsCounted buf.chunk_man (outside buf) io c (ground arith))
load_hand-IsSound io io' buf _ e s = s

pub load-IsSound :
    (io io' : Bool) (buf : Bufferer) → IsSound buf → IsSound (load_to_output io io' buf)
unfolding load_to_output
load-IsSound io io' buf s = load_hand-IsSound io io' buf buf.hand refl s

push_hand-IsSound :
    (buf : Bufferer) (h : Hand) → buf.hand ≡ h → IsSound buf → IsSound (push_hand buf h)
unfolding push_hand
push_hand-IsSound buf (ready c) e s = ground (arith, length-append buf.output_channel (c ∷ []))
push_hand-IsSound buf _ e s = s

pub push-IsSound : (buf : Bufferer) → IsSound buf → IsSound (push buf)
unfolding push
push-IsSound buf s = push_hand-IsSound buf buf.hand refl s

take_first-IsSound :
    (buf : Bufferer) (cs : List LogChunk)
    → buf.output_channel ≡ cs
    → IsSound buf
    → IsSound (take_first buf cs)
unfolding take_first
take_first-IsSound buf [] e s = s
take_first-IsSound buf (c ∷ cs) e s = ground (arith, length-append buf.taken (c ∷ []))

pub take-IsSound : (buf : Bufferer) → IsSound buf → IsSound (take_output buf)
unfolding take_output
take-IsSound buf s = take_first-IsSound buf buf.output_channel refl s
