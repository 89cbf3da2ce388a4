-- ===== src/Orchestrate/Routing.antt =====
-- What the pipelines get: for each merged key, the records of that key, in order.
use slog_agent.Base.{
  ℕ, Bool, true, ◌||◌, List, [], ◌∷◌, ◌++◌, Option, none, some, ◌≡◌, refl, ap, sym, ◌∙◌, arith,
  if◌then◌else◌, Bytes, bytes_eq, bytes_eq_iff, inl, inr, Bool-cases, append-nil, append_assoc, All,
  All-append, Option-cases,
}
use slog_agent.Input.Parser.{LogRecord}
use slog_agent.Orchestrate.KeySet.{
  extract_keys, merge_keys, Pipeline, find_pipeline, new_pipeline, get_or_create,
  ChannelInputBuffer, new_input_buffer, append, flush, append_flush, Links, has_link, append_link,
  Sink,
}

abbrev pub sent_in : List (Bool × List LogRecord) → List LogRecord
sent_in [] = []
sent_in ((takes, rs) ∷ batches) = rs ++ sent_in batches

-- Everything that a buffer was given: sent, then pending.
abbrev pub given : ChannelInputBuffer → List LogRecord
given cache = sent_in cache.batches ++ cache.pending_logs

-- What the buffer of a key was given.
unfoldable pub routed : Bytes → Links → List LogRecord
routed key [] = []
routed key ((j, cache) ∷ links) = if bytes_eq j key then given cache else routed key links

pub sent_in-append :
    (bs : List (Bool × List LogRecord)) (t : Bool) (rs : List LogRecord)
    → sent_in (bs ++ (t, rs) ∷ []) ≡ sent_in bs ++ rs
sent_in-append [] t rs = append-nil rs
sent_in-append ((t', rs') ∷ bs) t rs =
    ap (◌++◌ rs') (sent_in-append bs t rs) ∙ sym (append_assoc rs' (sent_in bs) rs)

given-flush :
    (now : ℕ) (takes : Bool) (cache : ChannelInputBuffer)
    → given (flush now takes cache) ≡ given cache
unfolding flush
given-flush now takes cache =
    append-nil (sent_in (cache.batches ++ (takes, cache.pending_logs) ∷ []))
    ∙ sent_in-append cache.batches takes cache.pending_logs

given-append_flush :
    (now : ℕ) (takes : Bool) (r : LogRecord) (cache : ChannelInputBuffer)
    → given (append_flush now takes r cache) ≡ given cache ++ r ∷ []
unfolding append_flush append
given-append_flush now takes r cache =
    let (cache', full) = append r cache in
    let more = sym (append_assoc (sent_in cache.batches) cache.pending_logs (r ∷ [])) in
    elim (Bool-cases full) [
      | inl yes' ↦ rw yes' (given-flush now takes cache' ∙ more)
      | inr no' ↦ rw no' more
    ]

pub routed-append_link :
    (now : ℕ) (takes : Bool) (key : Bytes) (r : LogRecord) (links : Links) (k : Bytes)
    → routed k (append_link now takes key r links)
      ≡ routed k links ++ (if bytes_eq key k then r ∷ [] else [])
unfolding routed append_link
routed-append_link now takes key r [] k =
    ground (arith, given-append_flush now takes r (new_input_buffer now))
routed-append_link now takes key r ((j, cache) ∷ links) k = ground (
  arith,
  given-append_flush now takes r cache,
  routed-append_link now takes key r links k,
  bytes_eq_iff j key,
  bytes_eq_iff j k,
  bytes_eq_iff key k,
  append-nil (given cache),
  append-nil (routed k links),
)

abbrev pub keyed : Bytes → LogRecord → Option (List Bytes) → List LogRecord
keyed k r none = []
keyed k r (some keys) = if bytes_eq (merge_keys keys) k then r ∷ [] else []

-- The records of a merged key among some records.
abbrev pub records_of : List ℕ → Bytes → List LogRecord → List LogRecord
records_of locs k [] = []
records_of locs k (r ∷ rs) = keyed k r (extract_keys locs r) ++ records_of locs k rs

abbrev pub IsMerged : Pipeline → Type 0
IsMerged p = merge_keys p.keys ≡ p.merged_key

-- Each link has its pipeline, and each pipeline stands under the merged key of its keys.
pub record IsLinked (sink : Sink) : Type 0 where
  pub linked :
      (k : Bytes)
      → has_link k sink.links ≡ true
      → (p : Pipeline) × (find_pipeline k sink.pipelines ≡ some p)
  pub merged : All IsMerged sink.pipelines

pub has_link-append_link :
    (now : ℕ) (takes : Bool) (key : Bytes) (r : LogRecord) (links : Links) (k : Bytes)
    → has_link k (append_link now takes key r links) ≡ (has_link k links || bytes_eq key k)
unfolding has_link append_link
has_link-append_link now takes key r [] k = ground arith
has_link-append_link now takes key r ((j, cache) ∷ links) k = ground (
  arith,
  has_link-append_link now takes key r links k,
  bytes_eq_iff j key,
  bytes_eq_iff j k,
  bytes_eq_iff key k,
)

-- What is found stays found, and what is added is found.
find_pipeline-append :
    (k : Bytes) (ps : List Pipeline) (q : Pipeline)
    → (p : Pipeline) × (find_pipeline k ps ≡ some p)
    → (p : Pipeline) × (find_pipeline k (ps ++ q ∷ []) ≡ some p)
unfolding find_pipeline
find_pipeline-append k [] q (p, e) = absurd (ground arith)
find_pipeline-append k (p' ∷ ps) q (p, e) = elim (Bool-cases (bytes_eq p'.merged_key k)) [
  | inl hit ↦ (p', rw (hit, find_pipeline) refl)
  | inr miss ↦
      (let (p'', found) = find_pipeline-append k ps q (p, rw (miss, find_pipeline) at e) in
        (p'', rw (miss, find_pipeline) found))
]

find_pipeline-new :
    (k : Bytes) (ps : List Pipeline) (q : Pipeline)
    → q.merged_key ≡ k
    → find_pipeline k ps ≡ none
    → find_pipeline k (ps ++ q ∷ []) ≡ some q
unfolding find_pipeline
find_pipeline-new k [] q e h = ground (arith, bytes_eq_iff q.merged_key k)
find_pipeline-new k (p ∷ ps) q e h = ground (arith, find_pipeline-new k ps q e)

abbrev pub found_or : Pipeline → Option Pipeline → Pipeline
found_or q none = q
found_or q (some p) = p

-- The pipeline of a key is the one that there was, or the new one.
pub find_pipeline-get_or_create :
    (keys : List Bytes) (ps : List Pipeline)
    → (let key = merge_keys keys in
        find_pipeline key (get_or_create keys key ps)
        ≡ some (found_or (new_pipeline keys key) (find_pipeline key ps)))
unfolding get_or_create
find_pipeline-get_or_create keys ps =
    let key = merge_keys keys in
    elim (Option-cases (find_pipeline key ps)) [
      | inl e ↦ rw e (find_pipeline-new key ps (new_pipeline keys key) refl e)
      | inr (p, e) ↦ rw e e
    ]

pub find_pipeline-get_or_create_keeps :
    (keys : List Bytes) (key : Bytes) (ps : List Pipeline) (k : Bytes)
    → (p : Pipeline) × (find_pipeline k ps ≡ some p)
    → (p : Pipeline) × (find_pipeline k (get_or_create keys key ps) ≡ some p)
unfolding get_or_create
find_pipeline-get_or_create_keeps keys key ps k h = elim (Option-cases (find_pipeline key ps)) [
  | inl e ↦ rw e (find_pipeline-append k ps (new_pipeline keys key) h)
  | inr (p, e) ↦ rw e h
]

pub get_or_create-IsMerged :
    (keys : List Bytes) (ps : List Pipeline)
    → All IsMerged ps
    → All IsMerged (get_or_create keys (merge_keys keys) ps)
unfolding get_or_create
get_or_create-IsMerged keys ps h = elim (Option-cases (find_pipeline (merge_keys keys) ps)) [
  | inl e ↦ rw e (All-append IsMerged ps (new_pipeline keys (merge_keys keys) ∷ []) h (refl, tt))
  | inr (p, e) ↦ rw e h
]
