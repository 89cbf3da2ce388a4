-- ===== src/Client/Tests.antt =====
-- The theorems on the client at concrete inputs.
use slog_agent.Base.{bytes_eq, true, false, [], ◌∷◌, some, ◌||◌, ◌≡◌, refl, arith, codes}
use slog_agent.Buffer.Disk.{LogChunk}
use slog_agent.Client.Ids.{has_id, find, delete}
use slog_agent.Client.Leftovers.{
  Ascends, new_leftover_channel, new_leftover_channel-Ascends, skip_duplicates, sort_chunks,
  insert_chunk,
}
use slog_agent.Client.Session.{
  Session, normal, selecting, new_session, reconnect_with_delay, after_send, queue_chunk,
  acker_receive, acker_end, after_ack, acknowledge, acknowledge_found, merge_leftovers,
  receive_input, ended, stop_acker, collect_leftovers,
}
use slog_agent.Client.Session.Steps.{
  Reach, here, next, sends, queues, acker_receives, acker_reads, acker_aborts, recovered, receives,
}
use slog_agent.Client.Session.Kept.{IsKept}
use slog_agent.Client.Session.Complete.{session-IsKept, merge_leftovers-has_id}
use slog_agent.Client.Worker.{
  WorkerReach, starts, goes_on, ends_session, stops_waiting, saves, new_worker, end_session,
  save_leftovers, worker_reports_all, ClientWorker, stopping, stopped,
}

abbrev chunk_a : LogChunk
chunk_a = record { id = codes "a.ff"; data_ = some (codes "abc"); saved = false }

abbrev chunk_b : LogChunk
chunk_b = record { id = codes "b.ff"; data_ = some (codes "d"); saved = false }

new_leftover_channel-Ascends_example : Ascends [] (new_leftover_channel (chunk_b ∷ chunk_a ∷ []))
new_leftover_channel-Ascends_example = new_leftover_channel-Ascends (chunk_b ∷ chunk_a ∷ [])

-- A chunk is received, sent, queued and acknowledged; the next one fails to be sent, and the
-- acknowledger ends.
abbrev begun : Session
begun = record (new_session []) { sender = selecting normal }

abbrev received : Session
received = receive_input chunk_a begun

abbrev queued : Session
queued = queue_chunk normal chunk_a (after_send true normal chunk_a received)

abbrev answered : Session
answered = after_ack (some (codes "a.ff")) chunk_a (acker_receive chunk_a [] queued)

abbrev failed : Session
failed = after_send false normal chunk_b (receive_input chunk_b answered)

abbrev finished : Session
finished = acker_end failed

Reach-queued : Reach (new_session []) queued
unfolding new_session receive_input after_send queue_chunk
Reach-queued =
    next
      (next (next (next here (recovered refl refl)) (receives chunk_a refl))
        (sends true normal _ refl))
      (queues normal chunk_a refl (omega arith))

Reach-answered : Reach (new_session []) answered
unfolding new_session receive_input after_send queue_chunk acker_receive
Reach-answered =
    next (next Reach-queued (acker_receives chunk_a [] refl refl)) (acker_reads _ chunk_a refl)

Reach-finished : Reach (new_session []) finished
unfolding new_session receive_input after_send queue_chunk acker_receive after_ack acknowledge_found
    acknowledge find bytes_eq collect_leftovers stop_acker
Reach-finished =
    next (next (next Reach-answered (receives chunk_b refl)) (sends false normal chunk_b refl))
      (acker_aborts refl refl)

session-IsKept_example : IsKept [] finished
session-IsKept_example = session-IsKept [] Reach-finished

finished-ended : finished.acker ≡ ended
unfolding acker_end
finished-ended = refl

not_empty : bytes_eq (codes "b.ff") [] ≡ false
unfolding bytes_eq
not_empty = refl

merge_leftovers-has_id_example :
    (has_id (codes "b.ff") [] || has_id (codes "b.ff") finished.inputs)
    ≡ (has_id (codes "b.ff") finished.acked || has_id (codes "b.ff") (merge_leftovers finished))
merge_leftovers-has_id_example =
    merge_leftovers-has_id [] (codes "b.ff") Reach-finished finished-ended not_empty

abbrev worked : ClientWorker
worked =
    save_leftovers
      (record (end_session finished reconnect_with_delay new_worker) { phase = stopping })

WorkerReach-worked : WorkerReach worked
unfolding new_session receive_input after_send queue_chunk acker_receive after_ack acknowledge_found
    acknowledge find bytes_eq collect_leftovers stop_acker acker_end end_session
WorkerReach-worked =
    goes_on
      (goes_on
        (goes_on starts (ends_session finished reconnect_with_delay refl Reach-finished refl refl))
        (stops_waiting refl))
      (saves refl)

worked-stopped : worked.phase ≡ stopped
unfolding save_leftovers
worked-stopped = refl

worker_reports_all_example :
    has_id (codes "b.ff") worked.inputs
    ≡ (has_id (codes "b.ff") worked.acked || has_id (codes "b.ff") worked.left)
worker_reports_all_example =
    worker_reports_all (codes "b.ff") not_empty WorkerReach-worked worked-stopped

-- The first chunk is acknowledged, the second one left.
worked-left : worked.left ≡ chunk_b ∷ []
unfolding new_session receive_input after_send queue_chunk acker_receive after_ack acknowledge_found
    acknowledge find bytes_eq collect_leftovers stop_acker acker_end end_session save_leftovers
    merge_leftovers new_leftover_channel skip_duplicates sort_chunks insert_chunk delete
worked-left = refl
