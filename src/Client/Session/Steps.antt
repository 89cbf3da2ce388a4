-- ===== src/Client/Session/Steps.antt =====
-- The interleavings of a session: the goroutine of `Run`, the acknowledger, and the abort by the
-- worker.
use slog_agent.Base.{◌<◌, Bool, true, List, [], ◌∷◌, Option, ◌≡◌, Bytes, length}
use slog_agent.Buffer.Disk.{LogChunk}
use slog_agent.Client.Session.{
  ReconnectPolicy, reconnect_with_delay, reconnect, no_reconnect, wait_pending_chunks,
  end_immediately, Stage, recovery, normal, selecting, sending, queueing, soft_stopping,
  hard_stopping, receiving, reading, ended, Session, max_pending_chunks, abort, stop_acker,
  collect_leftovers, return_leftovers, pop_leftover, receive_input, after_send, queue_chunk, ping,
  acker_receive, acker_end, after_ack,
}

pub data Step (s : Session) : Session → Type 0 where
  -- resendLeftovers
  stops_recovery :
      s.sender ≡ selecting recovery
      → Step s (collect_leftovers recovery end_immediately no_reconnect s)
  pops :
      (c : LogChunk) (cs : List LogChunk)
      → s.sender ≡ selecting recovery
      → s.previous ≡ c ∷ cs
      → Step s (pop_leftover c cs s)
  recovered :
      s.sender ≡ selecting recovery
      → s.previous ≡ []
      → Step s (record s { sender = selecting normal })
  -- processInput
  receives : (c : LogChunk) → s.sender ≡ selecting normal → Step s (receive_input c s)
  stops_input :
      s.sender ≡ selecting normal → Step s (collect_leftovers normal end_immediately no_reconnect s)
  reconnects :
      s.sender ≡ selecting normal
      → Step s (collect_leftovers normal wait_pending_chunks reconnect s)
  pings : (ok : Bool) → s.sender ≡ selecting normal → Step s (ping ok s)
  -- sendChunk
  sends :
      (ok : Bool) (stage : Stage) (c : LogChunk)
      → s.sender ≡ sending stage c
      → Step s (after_send ok stage c s)
  queues :
      (stage : Stage) (c : LogChunk)
      → s.sender ≡ queueing stage c
      → length s.acker_chan < max_pending_chunks
      → Step s (queue_chunk stage c s)
  stops_queueing :
      (stage : Stage) (c : LogChunk)
      → s.sender ≡ queueing stage c
      → Step s (collect_leftovers stage end_immediately no_reconnect s)
  finds_ended :
      (stage : Stage) (c : LogChunk)
      → s.sender ≡ queueing stage c
      → s.acker ≡ ended
      → Step s (collect_leftovers stage end_immediately reconnect_with_delay s)
  -- collectLeftovers, its two waits ended by the acknowledger or by a timeout
  stops_acker :
      (policy : ReconnectPolicy) → s.sender ≡ soft_stopping policy → Step s (stop_acker policy s)
  returns :
      (policy : ReconnectPolicy)
      → s.sender ≡ hard_stopping policy
      → Step s (return_leftovers policy s)
  -- runAcknowledger
  acker_receives :
      (c : LogChunk) (cs : List LogChunk)
      → s.acker ≡ receiving
      → s.acker_chan ≡ c ∷ cs
      → Step s (acker_receive c cs s)
  acker_closes :
      s.acker ≡ receiving → s.acker_chan ≡ [] → s.chan_closed ≡ true → Step s (acker_end s)
  acker_aborts : s.acker ≡ receiving → s.acker_abort ≡ true → Step s (acker_end s)
  acker_reads :
      (answer : Option Bytes) (c : LogChunk) → s.acker ≡ reading c → Step s (after_ack answer c s)
  -- Abort
  aborts : Step s (abort s)

pub data Reach (start : Session) : Session → Type 0 where
  here : Reach start start
  next : {a b : Session} → Reach start a → Step a b → Reach start b
