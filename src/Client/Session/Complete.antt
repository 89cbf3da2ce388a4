-- ===== src/Client/Session/Complete.antt =====
-- A session in all its interleavings: no chunk is lost, and the leftovers account for every chunk.
use slog_agent.Base.{
  ap, false, ◌||◌, List, [], ◌++◌, Option, none, some, ◌≡◌, refl, arith, Bytes, bytes_eq, ◌∙◌, sym,
}
use slog_agent.Buffer.Disk.{LogChunk}
use slog_agent.Client.Ids.{has_id, has_id-append}
use slog_agent.Client.Leftovers.{new_leftover_channel, has_id-new_leftover_channel}
use slog_agent.Client.Session.{
  recovery, normal, ended, Session, new_session, in_process, merge_leftovers, return_leftovers,
  wait_pending_chunks, end_immediately,
}
use slog_agent.Client.Session.Steps.{
  Step, Reach, here, next, stops_recovery, pops, recovered, receives, stops_input, reconnects,
  pings, sends, queues, stops_queueing, finds_ended, stops_acker, returns, acker_receives,
  acker_closes, acker_aborts, acker_reads, aborts,
}
use slog_agent.Client.Session.Kept.{
  is_last, holds, IsKept, abort-IsKept, stop_acker-IsKept, after_send-IsKept, ping-IsKept,
  after_ack-IsKept, collect-IsKept, pop-IsKept, receive-IsKept, queue-IsKept, acker_receive-IsKept,
  acker_end-IsKept,
}

Step-IsKept : {start : List LogChunk} {a b : Session} → Step a b → IsKept start a → IsKept start b
unfolding return_leftovers
Step-IsKept {a = s} (stops_recovery e) k = collect-IsKept s recovery end_immediately _ tt k
Step-IsKept {a = s} (pops c cs e l) k = pop-IsKept s c cs (rw e at k.at_sender).0 l k
Step-IsKept {a = s} (recovered e l) k = record {
  kept = k.kept;
  at_sender = ((rw e at k.at_sender).0, l);
  at_acker = k.at_acker;
  room = k.room;
}
Step-IsKept {a = s} (receives c e) k =
    receive-IsKept s c (rw e at k.at_sender).0 (rw e at k.at_sender).1 k
Step-IsKept {a = s} (stops_input e) k =
    collect-IsKept s normal end_immediately _ (rw e at k.at_sender).1 k
Step-IsKept {a = s} (reconnects e) k =
    collect-IsKept s normal wait_pending_chunks _ (rw e at k.at_sender).1 k
Step-IsKept {a = s} (pings ok e) k = ping-IsKept s ok (rw e at k.at_sender).1 k
Step-IsKept {a = s} (sends ok stage c e) k =
    after_send-IsKept s ok stage c (rw e at k.at_sender).0 (rw e at k.at_sender).1 k
Step-IsKept {a = s} (queues stage c e room) k =
    queue-IsKept s stage c (rw e at k.at_sender).0 (rw e at k.at_sender).1 room k
Step-IsKept {a = s} (stops_queueing stage c e) k =
    collect-IsKept s stage end_immediately _ (rw e at k.at_sender).1 k
Step-IsKept {a = s} (finds_ended stage c e h) k =
    collect-IsKept s stage end_immediately _ (rw e at k.at_sender).1 k
Step-IsKept {a = s} (stops_acker policy e) k = stop_acker-IsKept s policy k
Step-IsKept {a = s} (returns policy e) k = record {
  kept = k.kept;
  at_sender = tt;
  at_acker = k.at_acker;
  room = k.room;
}
Step-IsKept {a = s} (acker_receives c cs e l) k = acker_receive-IsKept s c cs l k
Step-IsKept {a = s} (acker_closes e l h) k = acker_end-IsKept s k
Step-IsKept {a = s} (acker_aborts e h) k = acker_end-IsKept s k
Step-IsKept {a = s} (acker_reads answer c e) k = after_ack-IsKept s answer c (rw e at k.at_acker) k
Step-IsKept {a = s} aborts k = abort-IsKept s k

new_session-IsKept : (start : List LogChunk) → IsKept start (new_session start)
unfolding new_session has_id
new_session-IsKept start = record {
  kept = λ i. ground arith;
  at_sender = (refl, tt);
  at_acker = tt;
  room = omega arith;
}

-- In every state of a session that started with the leftovers `start`, whatever the peer answers,
-- the environment stops and the order of the steps: an ID is one of a leftover or of an input
-- exactly if it is one of an acknowledged chunk, a leftover still to be sent, a chunk on its way to
-- the acknowledger, a chunk pending there, or the chunk in process; the chunk in process is kept in
-- `last_chunk`; an acknowledger that has ended has published what is pending; and the channel to it
-- is within its bound.
pub session-IsKept :
    (start : List LogChunk) {s : Session} → Reach (new_session start) s → IsKept start s
session-IsKept start here = new_session-IsKept start
session-IsKept start (next r st) = Step-IsKept st (session-IsKept start r)

has_id-in_process : (i : Bytes) (o : Option LogChunk) → is_last i o ≡ has_id i (in_process o)
unfolding has_id
has_id-in_process i none = refl
has_id-in_process i (some c) = ground arith

holds-merged :
    (i : Bytes) (s : Session)
    → holds i s ≡ has_id i (s.previous ++ s.acker_chan ++ s.pending ++ in_process s.last_chunk)
holds-merged i s =
    let p = s.previous in
    let c = s.acker_chan in
    let last = in_process s.last_chunk in
    ground (
      arith,
      has_id-append i (p ++ c ++ s.pending) last,
      has_id-append i (p ++ c) s.pending,
      has_id-append i p c,
      has_id-in_process i s.last_chunk,
    )

-- When the acknowledger of a session has ended, an ID that is not empty is one of a leftover of the
-- previous session or of an input exactly if it is one of an acknowledged chunk or of the leftovers
-- that the session would return: no chunk is lost, none is made up.
pub merge_leftovers-has_id :
    (start : List LogChunk) {s : Session} (i : Bytes)
    → Reach (new_session start) s
    → s.acker ≡ ended
    → bytes_eq i [] ≡ false
    → (has_id i start || has_id i s.inputs) ≡ (has_id i s.acked || has_id i (merge_leftovers s))
unfolding merge_leftovers new_leftover_channel
merge_leftovers-has_id start {s} i r e ne =
    let k = session-IsKept start r in
    let published = rw e at k.at_acker in
    let last = in_process s.last_chunk in
    let merged = s.previous ++ s.acker_chan ++ s.pending ++ last in
    k.kept i
    ∙ ap (◌||◌ (has_id i s.acked)) (holds-merged i s)
    ∙ rw published (ap (◌||◌ (has_id i s.acked)) (sym (has_id-new_leftover_channel i merged ne)))
