-- ===== src/Client/Worker.antt =====
-- output/baseoutput/clientworker.go: the loop over sessions, and the leftovers saved at its end.
use slog_agent.Base.{ap, false, ◌||◌, List, [], ◌++◌, ◌≡◌, refl, arith, Bytes, bytes_eq}
use slog_agent.Buffer.Disk.{LogChunk}
use slog_agent.Client.Ids.{has_id, has_id-append}
use slog_agent.Client.Session.{
  ReconnectPolicy, reconnect_with_delay, reconnect, no_reconnect, hard_stopping, ended, Session,
  new_session, merge_leftovers,
}
use slog_agent.Client.Session.Steps.{Reach}
use slog_agent.Client.Session.Complete.{merge_leftovers-has_id}

-- Where `run` stands: opening a connection or in a session, in the wait before the next, behind the
-- loop, or at its end.
pub data Phase : Type 0 where
  opening : Phase
  retry_waiting : Phase
  stopping : Phase
  stopped : Phase

-- `inputs`, `acked` and `left` record what came out of the input channel and what `onChunkAcked` and
-- `onChunkLeft` were called with.
pub record ClientWorker : Type 0 where
  pub phase : Phase
  pub leftovers : List LogChunk
  pub inputs : List LogChunk
  pub acked : List LogChunk
  pub left : List LogChunk

abbrev pub new_worker : ClientWorker
new_worker = record { phase = opening; leftovers = []; inputs = []; acked = []; left = [] }

-- The `switch` on what a session returned.
abbrev pub after_session : ReconnectPolicy → Phase
after_session no_reconnect = stopping
after_session reconnect_with_delay = retry_waiting
after_session reconnect = opening

unfoldable pub end_session : Session → ReconnectPolicy → ClientWorker → ClientWorker
end_session s policy client = record {
  phase = after_session policy;
  leftovers = merge_leftovers s;
  inputs = client.inputs ++ s.inputs;
  acked = client.acked ++ s.acked;
  left = client.left;
}

-- The loop over the closed channel of leftovers.
unfoldable pub save_leftovers : ClientWorker → ClientWorker
save_leftovers client = record {
  phase = stopped;
  leftovers = [];
  inputs = client.inputs;
  acked = client.acked;
  left = client.left ++ client.leftovers;
}

pub data WorkerStep (client : ClientWorker) : ClientWorker → Type 0 where
  stops_opening : client.phase ≡ opening → WorkerStep client (record client { phase = stopping })
  fails_opening :
      client.phase ≡ opening
      → WorkerStep client (record client { phase = after_session reconnect_with_delay })
  ends_session :
      (s : Session) (policy : ReconnectPolicy)
      → client.phase ≡ opening
      → Reach (new_session client.leftovers) s
      → s.sender ≡ hard_stopping policy
      → s.acker ≡ ended
      → WorkerStep client (end_session s policy client)
  retries : client.phase ≡ retry_waiting → WorkerStep client (record client { phase = opening })
  stops_waiting :
      client.phase ≡ retry_waiting → WorkerStep client (record client { phase = stopping })
  saves : client.phase ≡ stopping → WorkerStep client (save_leftovers client)

pub data WorkerReach : ClientWorker → Type 0 where
  starts : WorkerReach new_worker
  goes_on : {a b : ClientWorker} → WorkerReach a → WorkerStep a b → WorkerReach b

abbrev NoLeftovers : Phase → List LogChunk → Type 0
NoLeftovers stopped leftovers = leftovers ≡ []
NoLeftovers _ leftovers = Unit

record IsAccounted (i : Bytes) (client : ClientWorker) : Type 0 where
  pub same :
      has_id i client.inputs
      ≡ (has_id i client.acked || has_id i client.leftovers || has_id i client.left)
  pub saved : NoLeftovers client.phase client.leftovers

after_session-NoLeftovers :
    (policy : ReconnectPolicy) (cs : List LogChunk) → NoLeftovers (after_session policy) cs
after_session-NoLeftovers no_reconnect cs = tt
after_session-NoLeftovers reconnect_with_delay cs = tt
after_session-NoLeftovers reconnect cs = tt

WorkerStep-IsAccounted :
    (i : Bytes) {a b : ClientWorker}
    → bytes_eq i [] ≡ false
    → WorkerStep a b
    → IsAccounted i a
    → IsAccounted i b
unfolding end_session save_leftovers has_id
WorkerStep-IsAccounted i ne (stops_opening e) k = record { same = k.same; saved = tt }
WorkerStep-IsAccounted i ne (fails_opening e) k = record { same = k.same; saved = tt }
WorkerStep-IsAccounted i {a} ne (ends_session s policy e r h d) k = record {
  same = ground (
    arith,
    k.same,
    merge_leftovers-has_id a.leftovers i r d ne,
    has_id-append i a.inputs s.inputs,
    has_id-append i a.acked s.acked,
  );
  saved = after_session-NoLeftovers policy (merge_leftovers s);
}
WorkerStep-IsAccounted i ne (retries e) k = record { same = k.same; saved = tt }
WorkerStep-IsAccounted i ne (stops_waiting e) k = record { same = k.same; saved = tt }
WorkerStep-IsAccounted i {a} ne (saves e) k = record {
  same = ground (arith, k.same, has_id-append i a.left a.leftovers);
  saved = refl;
}

worker-IsAccounted :
    (i : Bytes) {client : ClientWorker}
    → bytes_eq i [] ≡ false
    → WorkerReach client
    → IsAccounted i client
unfolding has_id
worker-IsAccounted i ne starts = record { same = refl; saved = tt }
worker-IsAccounted i ne (goes_on r st) = WorkerStep-IsAccounted i ne st (worker-IsAccounted i ne r)

-- When a client has stopped, after any number of failed connections and sessions in which the
-- acknowledger ended, an ID that is not empty is one of a chunk that it took from its input exactly
-- if it is one of a chunk that it reported as acknowledged or as left: every chunk is reported, and
-- no other.
pub worker_reports_all :
    (i : Bytes) {client : ClientWorker}
    → bytes_eq i [] ≡ false
    → WorkerReach client
    → client.phase ≡ stopped
    → has_id i client.inputs ≡ (has_id i client.acked || has_id i client.left)
unfolding has_id
worker_reports_all i {client} ne r e =
    let k = worker-IsAccounted i ne r in
    let empty = rw e at k.saved in ground (arith, k.same, ap (has_id i) empty)
