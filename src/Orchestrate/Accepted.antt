-- ===== src/Orchestrate/Accepted.antt =====
-- What a sink does with the records of one call, and at its end.
use slog_agent.Base.{
  ℕ, ◌<◌, Bool, true, ◌||◌, List, [], ◌∷◌, ◌++◌, some, ◌≡◌, refl, ap, sym, ◌∙◌, subst, arith,
  if◌then◌else◌, length, Bytes, bytes_eq, bytes_eq_iff, ◌⊎◌, inl, inr, Bool-cases, append-nil,
  append_assoc, All, get_elem?-lt,
}
use slog_agent.Input.Parser.{LogRecord}
use slog_agent.Orchestrate.KeySet.{
  extract_keys, merge_keys, Pipeline, find_pipeline, get_or_create, has_link, append_link, Sink,
  accept_record, accept,
}
use slog_agent.Orchestrate.Routing.{
  routed, routed-append_link, records_of, IsLinked, has_link-append_link,
  find_pipeline-get_or_create, find_pipeline-get_or_create_keeps, get_or_create-IsMerged,
}

-- The record has every key field.
abbrev pub HasKeys : List ℕ → LogRecord → Type 0
HasKeys locs r = All (λ loc. loc < length r.fields) locs

extract_keys_total :
    (locs : List ℕ) (r : LogRecord)
    → HasKeys locs r
    → (keys : List Bytes) × (extract_keys locs r ≡ some keys)
unfolding extract_keys
extract_keys_total [] r h = ([], refl)
extract_keys_total (loc ∷ locs) r (h, hs) =
    let (key, e) = get_elem?-lt r.fields loc h in
    let (keys, es) = extract_keys_total locs r hs in (key ∷ keys, rw (e, es, extract_keys) refl)

-- The sink behind one record with these keys.
abbrev pub taken_in : ℕ → Bool → LogRecord → List Bytes → Sink → Sink
taken_in now takes r keys sink =
    let key = merge_keys keys in
    record sink {
      links = append_link now takes key r sink.links;
      pipelines =
          if has_link key sink.links then sink.pipelines else get_or_create keys key sink.pipelines;
    }

linked_or : (a b : Bool) → (a || b) ≡ true → (a ≡ true) ⊎ (b ≡ true)
linked_or a b h = ground arith

pipelines-found :
    (now : ℕ) (takes : Bool) (r : LogRecord) (keys : List Bytes) (sink : Sink) (k : Bytes)
    → IsLinked sink
    → (has_link k sink.links || bytes_eq (merge_keys keys) k) ≡ true
    → (p : Pipeline) × (find_pipeline k (taken_in now takes r keys sink).pipelines ≡ some p)
pipelines-found now takes r keys sink k linked h =
    let key = merge_keys keys in
    let old = linked.linked in
    let same = bytes_eq_iff key k in
    let split = linked_or (has_link k sink.links) (bytes_eq key k) h in
    elim (Bool-cases (has_link key sink.links)) [
      | inl yes' ↦ rw yes' (elim split [
        | inl a ↦ old k a
        | inr b ↦
            subst (λ j. (p : Pipeline) × (find_pipeline j sink.pipelines ≡ some p)) (same.0 b)
              (old key yes')
      ])
      | inr no' ↦ rw no' (elim split [
        | inl a ↦ find_pipeline-get_or_create_keeps keys key sink.pipelines k (old k a)
        | inr b ↦
            subst
              (λ j.
                (p : Pipeline) × (find_pipeline j (get_or_create keys key sink.pipelines) ≡ some p))
              (same.0 b) (_, find_pipeline-get_or_create keys sink.pipelines)
      ])
    ]

taken_in-IsLinked :
    (now : ℕ) (takes : Bool) (r : LogRecord) (keys : List Bytes) (sink : Sink)
    → IsLinked sink
    → IsLinked (taken_in now takes r keys sink)
taken_in-IsLinked now takes r keys sink h = record {
  linked = λ k e.
      pipelines-found now takes r keys sink k h
        (sym (has_link-append_link now takes (merge_keys keys) r sink.links k) ∙ e);
  merged = elim (Bool-cases (has_link (merge_keys keys) sink.links)) [
    | inl yes' ↦ rw yes' h.merged
    | inr no' ↦ rw no' (get_or_create-IsMerged keys sink.pipelines h.merged)
  ];
}

-- What a call of `Accept` makes of a sink.
pub record IsRouted (rs : List LogRecord) (sink out : Sink) : Type 0 where
  pub same_locators : out.key_locators ≡ sink.key_locators
  pub routed_by_key :
      (k : Bytes) → routed k out.links ≡ routed k sink.links ++ records_of sink.key_locators k rs
  pub still_linked : IsLinked sink → IsLinked out

taken_in-IsRouted :
    (now : ℕ) (takes : Bool) (r : LogRecord) (keys : List Bytes) (rs : List LogRecord)
    (sink out : Sink)
    → extract_keys sink.key_locators r ≡ some keys
    → IsRouted rs (taken_in now takes r keys sink) out
    → IsRouted (r ∷ rs) sink out
taken_in-IsRouted now takes r keys rs sink out e h = record {
  same_locators = h.same_locators;
  routed_by_key = λ k.
      (h.routed_by_key k
        ∙ ap (λ rs'. rs' ++ records_of sink.key_locators k rs)
            (routed-append_link now takes (merge_keys keys) r sink.links k)
        ∙ append_assoc (routed k sink.links) _ (records_of sink.key_locators k rs)
        ∙ rw e refl);
  still_linked = λ linked. h.still_linked (taken_in-IsLinked now takes r keys sink linked);
}

-- When every record has the key fields, `Accept` does not panic, appends the records to what the
-- links of their merged keys were given, in order and no others, and keeps a pipeline for each link.
pub accept-IsRouted :
    (now : ℕ) (takes : ℕ → Bool) (rs : List LogRecord) (sink : Sink)
    → All (HasKeys sink.key_locators) rs
    → (out : Sink) × (accept now takes rs sink ≡ some out) × IsRouted rs sink out
unfolding accept accept_record
accept-IsRouted now takes [] sink h = (
  sink,
  refl,
  record {
    same_locators = refl;
    routed_by_key = λ k. sym (append-nil (routed k sink.links));
    still_linked = λ linked. linked;
  },
)
accept-IsRouted now takes (r ∷ rs) sink (h, hs) =
    let (keys, e) = extract_keys_total sink.key_locators r h in
    let (out, runs, kept) =
      accept-IsRouted now takes rs (taken_in now (takes (length rs)) r keys sink) hs in
    (out, rw e runs, taken_in-IsRouted now (takes (length rs)) r keys rs sink out e kept)
