-- ===== src/Orchestrate/KeySet.antt =====
-- orchestrate/obykeyset/orchestrator.go and channelinputbuffer.go, util/localcachedmap and
-- base/fieldsetextractor.go: what one sink of the orchestrator does. A cached buffer is found by its
-- key in the list of links; the global map is the list of pipelines.
use slog_agent.Base.{
  ℕ, ◌+◌, ◌-◌, ◌*◌, Bool, true, false, not, ◌&&◌, ◌||◌, List, [], ◌∷◌, ◌++◌, Option, none, some,
  ltb, leb, ◌==◌, if◌then◌else◌, length, Bytes, bytes_eq,
}
use slog_agent.Input.Parser.{LogRecord}
use slog_agent.Transform.Matcher.{get_field}
use slog_agent.Transform.Run.{and_then}

-- defs/params.go
abbrev pub max_num_logs : ℕ
max_num_logs = 500

abbrev pub max_total_bytes : ℕ
max_total_bytes = 4 * 1024 * 1024

-- `Extract`; `none` for a locator out of range.
unfoldable pub extract_keys : List ℕ → LogRecord → Option (List Bytes)
extract_keys [] record_ = some []
extract_keys (loc ∷ locs) record_ =
    and_then (get_field loc record_.fields)
      λ key. and_then (extract_keys locs record_) λ keys. some (key ∷ keys)

-- The loop that appends the keys to the key buffer.
unfoldable pub merge_onto : Bytes → List Bytes → Bytes
merge_onto buffer [] = buffer
merge_onto buffer (key ∷ keys) = merge_onto (buffer ++ key) keys

-- The merged key; the buffer starts empty.
unfoldable pub merge_keys : List Bytes → Bytes
unfolding merge_onto
merge_keys keys = merge_onto [] keys

-- `strings.Join(keys, ",")`
unfoldable pub join_keys : List Bytes → Bytes
join_keys [] = []
join_keys (key ∷ []) = key
join_keys (key ∷ key' ∷ keys) = key ++ (b',' ∷ join_keys (key' ∷ keys))

-- A pipeline in the global map, under its merged key, with the keys that it was made for: its tag and
-- its worker ID are built from those.
pub record Pipeline : Type 0 where
  pub merged_key : Bytes
  pub keys : List Bytes
  pub worker_id : Bytes

unfoldable pub find_pipeline : Bytes → List Pipeline → Option Pipeline
find_pipeline key [] = none
find_pipeline key (p ∷ ps) = if bytes_eq p.merged_key key then some p else find_pipeline key ps

-- `newPipeline`
abbrev pub new_pipeline : List Bytes → Bytes → Pipeline
new_pipeline keys merged_key = record {
  merged_key = merged_key;
  keys = keys;
  worker_id = join_keys keys;
}

abbrev add_missing : List Bytes → Bytes → List Pipeline → Option Pipeline → List Pipeline
add_missing keys merged_key ps none = ps ++ new_pipeline keys merged_key ∷ []
add_missing keys merged_key ps (some p) = ps

-- `getOrCreate` of the global map, in its mutex.
unfoldable pub get_or_create : List Bytes → Bytes → List Pipeline → List Pipeline
unfolding find_pipeline join_keys
get_or_create keys merged_key ps = add_missing keys merged_key ps (find_pipeline merged_key ps)

-- `batches` records what was sent to the channel, each with whether the channel took it in time.
pub record ChannelInputBuffer : Type 0 where
  pub pending_logs : List LogRecord
  pub pending_bytes : ℕ
  pub last_flush_time : ℕ
  pub batches : List (Bool × List LogRecord)

abbrev pub new_input_buffer : ℕ → ChannelInputBuffer
new_input_buffer now = record {
  pending_logs = [];
  pending_bytes = 0;
  last_flush_time = now;
  batches = [];
}

-- `Append`: the buffer, and whether it has to be flushed.
unfoldable pub append : LogRecord → ChannelInputBuffer → ChannelInputBuffer × Bool
append r cache =
    let cache' = record cache {
      pending_logs = cache.pending_logs ++ r ∷ [];
      pending_bytes = cache.pending_bytes + r.raw_length;
    } in
    (
      cache',
      leb max_total_bytes cache'.pending_bytes || leb max_num_logs (length cache'.pending_logs),
    )

-- `Flush` at the time `now`; the channel takes the records in time or not.
unfoldable pub flush : ℕ → Bool → ChannelInputBuffer → ChannelInputBuffer
flush now takes cache = record {
  pending_logs = [];
  pending_bytes = 0;
  last_flush_time = now;
  batches = cache.batches ++ (takes, cache.pending_logs) ∷ [];
}

abbrev flush_full : ℕ → Bool → ChannelInputBuffer × Bool → ChannelInputBuffer
flush_full now takes (cache, full) = if full then flush now takes cache else cache

unfoldable pub append_flush : ℕ → Bool → LogRecord → ChannelInputBuffer → ChannelInputBuffer
unfolding append flush
append_flush now takes r cache = flush_full now takes (append r cache)

abbrev pub Links : Type 0
Links = List (Bytes × ChannelInputBuffer)

unfoldable pub has_link : Bytes → Links → Bool
has_link key [] = false
has_link key ((j, cache) ∷ links) = bytes_eq j key || has_link key links

-- The cached buffer of a key with a record appended, flushed if it is full; a new one if there is none.
unfoldable pub append_link : ℕ → Bool → Bytes → LogRecord → Links → Links
unfolding append_flush
append_link now takes key r [] = (key, append_flush now takes r (new_input_buffer now)) ∷ []
append_link now takes key r ((j, cache) ∷ links) =
    let behind = append_link now takes key r links in
    if bytes_eq j key then (j, append_flush now takes r cache) ∷ links else (j, cache) ∷ behind

-- A sink, with the pipelines of the orchestrator.
pub record Sink : Type 0 where
  pub key_locators : List ℕ
  pub links : Links
  pub pipelines : List Pipeline

-- One record of `Accept`. The pipeline is looked up only for a key that has no link yet.
unfoldable pub accept_record : ℕ → Bool → LogRecord → Sink → Option Sink
unfolding extract_keys merge_keys get_or_create has_link append_link
accept_record now takes r sink = and_then (extract_keys sink.key_locators r) λ keys.
    let key = merge_keys keys in
    some (record sink {
      links = append_link now takes key r sink.links;
      pipelines =
          if has_link key sink.links then sink.pipelines else get_or_create keys key sink.pipelines;
    })

-- `takes` says for each flush, by the number of records behind, whether the channel takes it in time.
unfoldable pub accept : ℕ → (ℕ → Bool) → List LogRecord → Sink → Option Sink
unfolding accept_record
accept now takes [] sink = some sink
accept now takes (r ∷ rs) sink =
    and_then (accept_record now (takes (length rs)) r sink) (accept now takes rs)

-- `flushAllLocalBuffers`, with the interval of a tick; `takes` says for each flush, by the number of
-- links behind, whether the channel takes it in time.
unfoldable pub flush_all : ℕ → ℕ → (ℕ → Bool) → Bool → Links → Links
unfolding flush
flush_all now interval takes force_all [] = []
flush_all now interval takes force_all ((j, cache) ∷ links) =
    let behind = flush_all now interval takes force_all links in
    if length cache.pending_logs == 0
    then (j, cache) ∷ behind
    else if not force_all && ltb (now - cache.last_flush_time) interval
    then (j, cache) ∷ behind
    else (j, flush now (takes (length links)) cache) ∷ behind

-- `Tick` and `Close`
unfoldable pub tick : ℕ → ℕ → (ℕ → Bool) → Sink → Sink
unfolding flush_all
tick now interval takes sink = record sink { links = flush_all now interval takes false sink.links }

unfoldable pub close : ℕ → ℕ → (ℕ → Bool) → Sink → Sink
unfolding flush_all
close now interval takes sink = record sink { links = flush_all now interval takes true sink.links }
