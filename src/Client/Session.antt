-- ===== src/Client/Session.antt =====
-- output/baseoutput/clientsession.go: the sending loop and the acknowledger of one connection. Each
-- function is what the code does between two points where it waits; channels are lists.
use slog_agent.Base.{
  ℕ, ◌<◌, Bool, true, false, List, [], ◌∷◌, ◌++◌, Option, none, some, ◌≡◌, Bytes, length,
}
use slog_agent.Buffer.Disk.{LogChunk}
use slog_agent.Client.Ids.{delete, find}
use slog_agent.Client.Leftovers.{new_leftover_channel}
pub mod Steps
pub mod Kept
pub mod Complete

pub data ReconnectPolicy : Type 0 where
  reconnect_with_delay : ReconnectPolicy
  reconnect : ReconnectPolicy
  no_reconnect : ReconnectPolicy

pub data AcknowledgerEnding : Type 0 where
  wait_pending_chunks : AcknowledgerEnding
  end_immediately : AcknowledgerEnding

-- The loop of `resendLeftovers` or that of `processInput`.
pub data Stage : Type 0 where
  recovery : Stage
  normal : Stage

-- Where the goroutine of `Run` waits: in the `select` of a loop, in `SendChunk`, in the `select`
-- after it, for the soft stop of the acknowledger, or for its end.
pub data Sender : Type 0 where
  selecting : Stage → Sender
  sending : Stage → LogChunk → Sender
  queueing : Stage → LogChunk → Sender
  soft_stopping : ReconnectPolicy → Sender
  hard_stopping : ReconnectPolicy → Sender
  returned : List LogChunk → ReconnectPolicy → Sender

-- Where the acknowledger waits: for a chunk, for the answer to one, or nowhere any more.
pub data Acker : Type 0 where
  receiving : Acker
  reading : LogChunk → Acker
  ended : Acker

-- `previous` is the channel `leftovers`. `inputs` and `acked` record what came out of the input
-- channel and what `onChunkAcked` was called with.
pub record Session : Type 0 where
  pub previous : List LogChunk
  pub last_chunk : Option LogChunk
  pub acker_chan : List LogChunk
  pub chan_closed : Bool
  pub acker_abort : Bool
  pub conn_closed : Bool
  pub pending : List LogChunk
  pub unacked : Option (List LogChunk)
  pub sender : Sender
  pub acker : Acker
  pub inputs : List LogChunk
  pub acked : List LogChunk

-- `defs.ForwarderMaxPendingChunksForAck`
abbrev pub max_pending_chunks : ℕ
max_pending_chunks = 10

unfoldable pub new_session : List LogChunk → Session
new_session leftovers = record {
  previous = leftovers;
  last_chunk = none;
  acker_chan = [];
  chan_closed = false;
  acker_abort = false;
  conn_closed = false;
  pending = [];
  unacked = none;
  sender = selecting recovery;
  acker = receiving;
  inputs = [];
  acked = [];
}

-- `abortConn`
unfoldable pub abort : Session → Session
abort s = record s { conn_closed = true }

-- `collectLeftovers` between the wait for the soft stop and the wait for the end.
unfoldable pub stop_acker : ReconnectPolicy → Session → Session
unfolding abort
stop_acker policy s = record (abort s) { acker_abort = true; sender = hard_stopping policy }

-- The leftovers that a stage passes to `collectLeftovers`: nil in the normal stage.
abbrev pub maybe_previous : Stage → List LogChunk → List LogChunk
maybe_previous recovery previous = previous
maybe_previous normal previous = []

-- `collectLeftovers` as far as its first wait.
unfoldable pub collect_leftovers : Stage → AcknowledgerEnding → ReconnectPolicy → Session → Session
unfolding stop_acker
collect_leftovers stage wait_pending_chunks policy s = record s {
  previous = maybe_previous stage s.previous;
  chan_closed = true;
  sender = soft_stopping policy;
}
collect_leftovers stage end_immediately policy s =
    stop_acker policy (record s { previous = maybe_previous stage s.previous; chan_closed = true })

abbrev pub from_option : Option (List LogChunk) → List LogChunk
from_option none = []
from_option (some cs) = cs

abbrev pub in_process : Option LogChunk → List LogChunk
in_process none = []
in_process (some c) = c ∷ []

-- The rest of `collectLeftovers`: merge, sort and deduplicate.
unfoldable pub merge_leftovers : Session → List LogChunk
unfolding new_leftover_channel
merge_leftovers s =
    new_leftover_channel
      (s.previous ++ s.acker_chan ++ from_option s.unacked ++ in_process s.last_chunk)

unfoldable pub return_leftovers : ReconnectPolicy → Session → Session
unfolding merge_leftovers
return_leftovers policy s = record s { sender = returned (merge_leftovers s) policy }

-- The two receive branches of the loops.
unfoldable pub pop_leftover : LogChunk → List LogChunk → Session → Session
pop_leftover c cs s = record s { previous = cs; last_chunk = some c; sender = sending recovery c }

unfoldable pub receive_input : LogChunk → Session → Session
receive_input c s = record s {
  inputs = s.inputs ++ c ∷ [];
  last_chunk = some c;
  sender = sending normal c;
}

-- `sendChunk` behind `conn.SendChunk`, which succeeded or not.
unfoldable pub after_send : Bool → Stage → LogChunk → Session → Session
unfolding abort collect_leftovers
after_send true stage c s = record s { sender = queueing stage c }
after_send false stage c s = collect_leftovers stage end_immediately reconnect_with_delay (abort s)

-- The branch of `sendChunk` that hands the chunk to the acknowledger.
unfoldable pub queue_chunk : Stage → LogChunk → Session → Session
queue_chunk stage c s = record s {
  acker_chan = s.acker_chan ++ c ∷ [];
  last_chunk = none;
  sender = selecting stage;
}

-- `sendPing` and the branch that calls it.
unfoldable pub ping : Bool → Session → Session
unfolding abort collect_leftovers
ping true s = s
ping false s = collect_leftovers normal end_immediately reconnect_with_delay (abort s)

-- The acknowledger: a chunk from the channel, and the deferred function at its end.
unfoldable pub acker_receive : LogChunk → List LogChunk → Session → Session
unfolding delete
acker_receive c cs s = record s {
  acker_chan = cs;
  pending = c ∷ delete c.id s.pending;
  acker = reading c;
}

unfoldable pub acker_end : Session → Session
acker_end s = record s { unacked = some s.pending; acker = ended }

-- Clean-up of an acknowledged chunk.
unfoldable pub acknowledge : LogChunk → Session → Session
unfolding delete
acknowledge c s = record s {
  pending = delete c.id s.pending;
  acked = s.acked ++ c ∷ [];
  acker = receiving;
}

-- The acknowledged chunk by its ID in the map; an unknown ID is only reported.
unfoldable pub acknowledge_found : Option LogChunk → Session → Session
unfolding acknowledge
acknowledge_found none s = record s { acker = receiving }
acknowledge_found (some d) s = acknowledge d s

-- The end of an iteration behind `ReadChunkAck`: `none` for an error, or the acknowledged ID.
unfoldable pub after_ack : Option Bytes → LogChunk → Session → Session
unfolding abort acker_end acknowledge acknowledge_found find
after_ack none c s = acker_end (abort s)
after_ack (some []) c s = acknowledge c s
after_ack (some (b ∷ id)) c s = acknowledge_found (find (b ∷ id) s.pending) s
