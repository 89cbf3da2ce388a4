-- ===== src/Buffer/Bufferer.antt =====
-- buffer/hybridbuffer/bufferer.go and outputfeeder.go: the two queues and what moves chunks through
-- them. Channels are lists, the feeder's loop variable is `hand`, and `taken` are the chunks that
-- consumers have received and not yet reported.
use slog_agent.Base.{
  ℕ, ◌+◌, ◌/◌, Bool, true, false, List, [], ◌∷◌, ◌++◌, none, some, leb, ltb, ◌==◌, if◌then◌else◌,
  length, bytes_eq,
}
use slog_agent.Buffer.Disk.{LogChunk, Gauge, zero_gauge, add, sub}
use slog_agent.Buffer.Operator.{WriteResult, data_length}
use slog_agent.Buffer.Manager.{
  Manager, load_or_drop_chunk, unload_or_drop_chunk, on_chunk_input, on_chunk_input_recovered,
  on_chunk_corrupted, on_chunk_dropped,
}

-- The feeder's loop: waiting for a chunk, with a received chunk, or with one loaded for output. At
-- the end the source saves the chunk as it was received: its copy that was loaded is saved on disk
-- too, and saving it again does nothing, so the two are not told apart.
pub data Hand : Type 0 where
  waiting : Hand
  received : LogChunk → Hand
  ready : LogChunk → Hand

pub record Bufferer : Type 0 where
  pub chunk_man : Manager
  pub max_in_queue : ℕ
  pub max_in_memory : ℕ
  pub input_channel : List LogChunk
  pub output_channel : List LogChunk
  pub hand : Hand
  pub taken : List LogChunk
  pub queued_transient : Gauge
  pub queued_persistent : Gauge
  pub num_saved : ℕ

unfoldable pub new_bufferer : Manager → ℕ → ℕ → Bufferer
new_bufferer man max_in_queue max_in_memory = record {
  chunk_man = man;
  max_in_queue = max_in_queue;
  max_in_memory = max_in_memory;
  input_channel = [];
  output_channel = [];
  hand = waiting;
  taken = [];
  queued_transient = zero_gauge;
  queued_persistent = zero_gauge;
  num_saved = 0;
}

-- The gauge for a chunk that enters or leaves the queue: `chunk.Data != nil`.
unfoldable pub count_queued : (Gauge → Gauge) → Bufferer → LogChunk → Bufferer
count_queued f buf chunk = elim chunk.data_ [
  | none ↦ record buf { queued_persistent = f buf.queued_persistent }
  | some d ↦ record buf { queued_transient = f buf.queued_transient }
]

-- The `select` of `Accept`: the chunk enters the queue, or is dropped if the queue is full.
unfoldable pub enqueue : Bufferer → LogChunk → Bufferer
unfolding count_queued
enqueue buf chunk =
    if ltb (length buf.input_channel) buf.max_in_queue
    then count_queued (add 1) (record buf { input_channel = buf.input_channel ++ chunk ∷ [] }) chunk
    else record buf { chunk_man = on_chunk_dropped buf.chunk_man chunk }

-- `Accept` behind the unloading.
unfoldable pub accept_unloaded : Bufferer → Bool × LogChunk × Manager → Bufferer
accept_unloaded buf (true, chunk, man) = enqueue (record buf { chunk_man = man }) chunk
accept_unloaded buf (false, chunk, man) = record buf { chunk_man = man }

unfoldable pub accept : WriteResult → Bufferer → LogChunk → Bufferer
unfolding accept_unloaded enqueue count_queued
accept io buf chunk =
    if leb (buf.max_in_memory / 2) (length buf.output_channel)
    then accept_unloaded buf (unload_or_drop_chunk io (on_chunk_input false buf.chunk_man) chunk)
    else enqueue (record buf { chunk_man = on_chunk_input true buf.chunk_man }) chunk

-- `recoverExistingChunks` over the scanned chunks, each with the success of its `stat` call. The
-- loop ends at a full queue.
unfoldable pub recover_existing_chunks : List (LogChunk × Bool) → Bufferer → Bufferer
recover_existing_chunks [] buf = buf
recover_existing_chunks ((chunk, io) ∷ chunks) buf =
    elim (ltb (length buf.input_channel) buf.max_in_queue) [
      | false ↦ buf
      | true ↦ recover_existing_chunks chunks (record buf {
        input_channel = buf.input_channel ++ chunk ∷ [];
        chunk_man = on_chunk_input_recovered io buf.chunk_man chunk;
        queued_persistent = add 1 buf.queued_persistent;
      })
    ]

-- The feeder receives the first chunk of the queue.
unfoldable pub feed_first : Bufferer → List LogChunk → Bufferer
unfolding count_queued
feed_first buf [] = buf
feed_first buf (chunk ∷ rest) =
    count_queued (sub 1) (record buf { input_channel = rest; hand = received chunk }) chunk

unfoldable pub feed_hand : Bufferer → Hand → Bufferer
unfolding feed_first
feed_hand buf waiting = feed_first buf buf.input_channel
feed_hand buf _ = buf

unfoldable pub feed : Bufferer → Bufferer
unfolding feed_hand
feed buf = feed_hand buf buf.hand

-- `loadToOutput` up to its `select`: the loaded chunk, or none if it is dropped.
unfoldable pub load_result : Bool → Bufferer → Bool × LogChunk × Manager → Bufferer
load_result io buf (false, chunk, man) = record buf { chunk_man = man; hand = waiting }
load_result io buf (true, chunk, man) =
    if data_length chunk == 0
    then record buf { chunk_man = on_chunk_corrupted io man chunk; hand = waiting }
    else record buf { chunk_man = man; hand = ready chunk }

unfoldable pub load_hand : Bool → Bool → Bufferer → Hand → Bufferer
load_hand io io' buf (received chunk) =
    load_result io' buf (load_or_drop_chunk io buf.chunk_man chunk)
load_hand io io' buf _ = buf

unfoldable pub load_to_output : Bool → Bool → Bufferer → Bufferer
unfolding load_hand load_result
load_to_output io io' buf = load_hand io io' buf buf.hand

-- The `select` of `loadToOutput`: the chunk in hand enters the output queue, if there is room.
unfoldable pub push_hand : Bufferer → Hand → Bufferer
push_hand buf (ready chunk) =
    if ltb (length buf.output_channel) buf.max_in_memory
    then record buf { output_channel = buf.output_channel ++ chunk ∷ []; hand = waiting }
    else buf
push_hand buf _ = buf

unfoldable pub push : Bufferer → Bufferer
unfolding push_hand
push buf = push_hand buf buf.hand

-- A consumer receives the first chunk of the output queue.
unfoldable pub take_first : Bufferer → List LogChunk → Bufferer
take_first buf [] = buf
take_first buf (chunk ∷ rest) = record buf {
  output_channel = rest;
  taken = buf.taken ++ chunk ∷ [];
}

unfoldable pub take_output : Bufferer → Bufferer
unfolding take_first
take_output buf = take_first buf buf.output_channel

-- One chunk of `saveEverything`, and the loops over the three places.
unfoldable pub save_one : Bufferer → Bool × LogChunk × Manager → Bufferer
save_one buf (true, chunk, man) = record buf { chunk_man = man; num_saved = buf.num_saved + 1 }
save_one buf (false, chunk, man) = record buf { chunk_man = man }

unfoldable pub save_all : (ℕ → WriteResult) → List LogChunk → Bufferer → Bufferer
save_all io [] buf = buf
save_all io (chunk ∷ chunks) buf =
    save_all io chunks
      (save_one buf (unload_or_drop_chunk (io (length chunks)) buf.chunk_man chunk))

-- `lastInputChunk.ID != ""`
unfoldable pub last_input : Hand → List LogChunk
last_input waiting = []
last_input (received chunk) = if bytes_eq chunk.id [] then [] else chunk ∷ []
last_input (ready chunk) = if bytes_eq chunk.id [] then [] else chunk ∷ []

-- `saveEverything`; the results of the writes are given for each of the three loops.
unfoldable pub save_everything :
    (ℕ → WriteResult) → (ℕ → WriteResult) → (ℕ → WriteResult) → Bufferer → Bufferer
unfolding last_input save_all save_one
save_everything io io' io'' buf =
    let queue = save_all io buf.input_channel (record buf { input_channel = [] }) in
    let last = save_all io' (last_input buf.hand) (record queue { hand = waiting }) in
    save_all io'' buf.output_channel (record last { output_channel = [] })
