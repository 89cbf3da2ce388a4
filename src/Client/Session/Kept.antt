-- ===== src/Client/Session/Kept.antt =====
-- No chunk is lost in a session: the invariant of its steps.
use slog_agent.Base.{
  ◌≤◌, ◌<◌, Bool, ap, true, false, ◌||◌, List, [], ◌∷◌, Option, none, some, ◌≡◌, refl, arith, Bytes,
  bytes_eq, bytes_eq_iff, length, length-append,
}
use slog_agent.Buffer.Disk.{LogChunk}
use slog_agent.Client.Ids.{has_id, has_id-append, has_id-delete, find, find_lem}
use slog_agent.Client.Session.{
  Stage, recovery, normal, Sender, selecting, sending, queueing, Acker, receiving, reading, ended,
  Session, max_pending_chunks, abort, stop_acker, collect_leftovers, pop_leftover, receive_input,
  after_send, queue_chunk, ping, acker_receive, acker_end, acknowledge, after_ack,
  acknowledge_found, wait_pending_chunks, end_immediately, AcknowledgerEnding, ReconnectPolicy,
}

abbrev pub is_last : Bytes → Option LogChunk → Bool
is_last i none = false
is_last i (some c) = bytes_eq i c.id

-- Whether the session still has a chunk of this ID.
abbrev pub holds : Bytes → Session → Bool
holds i s =
    has_id i s.previous || has_id i s.acker_chan || has_id i s.pending || is_last i s.last_chunk

-- The chunk in process, and no leftover behind the recovery stage.
abbrev StageOk : Stage → List LogChunk → Type 0
StageOk recovery previous = Unit
StageOk normal previous = previous ≡ []

abbrev SenderOk : Sender → Option LogChunk → List LogChunk → Type 0
SenderOk (selecting stage) last previous = (last ≡ none) × StageOk stage previous
SenderOk (sending stage c) last previous = (last ≡ some c) × StageOk stage previous
SenderOk (queueing stage c) last previous = (last ≡ some c) × StageOk stage previous
SenderOk _ last previous = Unit

abbrev AckerOk : Acker → List LogChunk → Option (List LogChunk) → Type 0
AckerOk receiving pending unacked = Unit
AckerOk (reading c) pending unacked = has_id c.id pending ≡ true
AckerOk ended pending unacked = unacked ≡ some pending

pub record IsKept (start : List LogChunk) (s : Session) : Type 0 where
  pub kept : (i : Bytes) → (has_id i start || has_id i s.inputs) ≡ (has_id i s.acked || holds i s)
  pub at_sender : SenderOk s.sender s.last_chunk s.previous
  pub at_acker : AckerOk s.acker s.pending s.unacked
  pub room : length s.acker_chan ≤ max_pending_chunks

module _ {start : List LogChunk} (s : Session) where
  pub collect-IsKept :
      (stage : Stage) (ending : AcknowledgerEnding) (policy : ReconnectPolicy)
      → StageOk stage s.previous
      → IsKept start s
      → IsKept start (collect_leftovers stage ending policy s)
  unfolding collect_leftovers stop_acker abort
  collect-IsKept recovery wait_pending_chunks policy o k = record {
    kept = k.kept;
    at_sender = tt;
    at_acker = k.at_acker;
    room = k.room;
  }
  collect-IsKept recovery end_immediately policy o k = record {
    kept = k.kept;
    at_sender = tt;
    at_acker = k.at_acker;
    room = k.room;
  }
  collect-IsKept normal wait_pending_chunks policy o k = record {
    kept = rw o at k.kept;
    at_sender = tt;
    at_acker = k.at_acker;
    room = k.room;
  }
  collect-IsKept normal end_immediately policy o k = record {
    kept = rw o at k.kept;
    at_sender = tt;
    at_acker = k.at_acker;
    room = k.room;
  }

  pub pop-IsKept :
      (c : LogChunk) (cs : List LogChunk)
      → s.last_chunk ≡ none
      → s.previous ≡ c ∷ cs
      → IsKept start s
      → IsKept start (pop_leftover c cs s)
  unfolding pop_leftover has_id
  pop-IsKept c cs l e k = record {
    kept = λ i. ground (arith, k.kept i);
    at_sender = (refl, tt);
    at_acker = k.at_acker;
    room = k.room;
  }

  pub receive-IsKept :
      (c : LogChunk)
      → s.last_chunk ≡ none
      → s.previous ≡ []
      → IsKept start s
      → IsKept start (receive_input c s)
  unfolding receive_input has_id
  receive-IsKept c l e k = record {
    kept = λ i. ground (arith, k.kept i, has_id-append i s.inputs (c ∷ []));
    at_sender = (refl, e);
    at_acker = k.at_acker;
    room = k.room;
  }

  pub queue-IsKept :
      (stage : Stage) (c : LogChunk)
      → s.last_chunk ≡ some c
      → StageOk stage s.previous
      → length s.acker_chan < max_pending_chunks
      → IsKept start s
      → IsKept start (queue_chunk stage c s)
  unfolding queue_chunk has_id
  queue-IsKept stage c l o room k = record {
    kept = λ i. ground (arith, k.kept i, has_id-append i s.acker_chan (c ∷ []));
    at_sender = (refl, o);
    at_acker = k.at_acker;
    room = omega (arith, length-append s.acker_chan (c ∷ []));
  }

  pub acker_receive-IsKept :
      (c : LogChunk) (cs : List LogChunk)
      → s.acker_chan ≡ c ∷ cs
      → IsKept start s
      → IsKept start (acker_receive c cs s)
  unfolding acker_receive has_id
  acker_receive-IsKept c cs e k = record {
    kept = λ i. ground (arith, k.kept i, has_id-delete i c.id s.pending);
    at_sender = k.at_sender;
    at_acker = ground (arith, bytes_eq_iff c.id c.id);
    room = omega (arith, ap length e, k.room);
  }

  pub acker_end-IsKept : IsKept start s → IsKept start (acker_end s)
  unfolding acker_end
  acker_end-IsKept k = record {
    kept = k.kept;
    at_sender = k.at_sender;
    at_acker = refl;
    room = k.room;
  }

  pub acknowledge-IsKept :
      (c : LogChunk)
      → has_id c.id s.pending ≡ true
      → IsKept start s
      → IsKept start (acknowledge c s)
  unfolding acknowledge has_id
  acknowledge-IsKept c h k = record {
    kept = λ i. ground (
      arith,
      k.kept i,
      has_id-append i s.acked (c ∷ []),
      has_id-delete i c.id s.pending,
      bytes_eq_iff i c.id,
    );
    at_sender = k.at_sender;
    at_acker = tt;
    room = k.room;
  }

pub abort-IsKept : {start : List LogChunk} (s : Session) → IsKept start s → IsKept start (abort s)
unfolding abort
abort-IsKept s k = record {
  kept = k.kept;
  at_sender = k.at_sender;
  at_acker = k.at_acker;
  room = k.room;
}

pub stop_acker-IsKept :
    {start : List LogChunk} (s : Session) (policy : ReconnectPolicy)
    → IsKept start s
    → IsKept start (stop_acker policy s)
unfolding stop_acker abort
stop_acker-IsKept s policy k = record {
  kept = k.kept;
  at_sender = tt;
  at_acker = k.at_acker;
  room = k.room;
}

pub after_send-IsKept :
    {start : List LogChunk} (s : Session) (ok : Bool) (stage : Stage) (c : LogChunk)
    → s.last_chunk ≡ some c
    → StageOk stage s.previous
    → IsKept start s
    → IsKept start (after_send ok stage c s)
unfolding after_send abort
after_send-IsKept s true stage c l o k = record {
  kept = k.kept;
  at_sender = (l, o);
  at_acker = k.at_acker;
  room = k.room;
}
after_send-IsKept s false stage c l o k =
    collect-IsKept (abort s) stage end_immediately _ o (abort-IsKept s k)

pub ping-IsKept :
    {start : List LogChunk} (s : Session) (ok : Bool)
    → s.previous ≡ []
    → IsKept start s
    → IsKept start (ping ok s)
unfolding ping abort
ping-IsKept s true o k = k
ping-IsKept s false o k = collect-IsKept (abort s) normal end_immediately _ o (abort-IsKept s k)

acknowledge_found-IsKept :
    {start : List LogChunk} (s : Session) (i : Bytes) (o : Option LogChunk)
    → find i s.pending ≡ o
    → IsKept start s
    → IsKept start (acknowledge_found o s)
unfolding acknowledge_found
acknowledge_found-IsKept s i none e k = record {
  kept = k.kept;
  at_sender = k.at_sender;
  at_acker = tt;
  room = k.room;
}
acknowledge_found-IsKept s i (some d) e k =
    let found = find_lem i d s.pending e in acknowledge-IsKept s d (rw (found.0) (found.1)) k

pub after_ack-IsKept :
    {start : List LogChunk} (s : Session) (answer : Option Bytes) (c : LogChunk)
    → has_id c.id s.pending ≡ true
    → IsKept start s
    → IsKept start (after_ack answer c s)
unfolding after_ack abort
after_ack-IsKept s none c h k = acker_end-IsKept (abort s) (abort-IsKept s k)
after_ack-IsKept s (some []) c h k = acknowledge-IsKept s c h k
after_ack-IsKept s (some (b ∷ id)) c h k =
    acknowledge_found-IsKept s (b ∷ id) (find (b ∷ id) s.pending) refl k
