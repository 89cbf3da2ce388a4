-- ===== src/Orchestrate/Shared.antt =====
-- Pipelines that key sets share.
use slog_agent.Base.{
  ℕ, zero, suc, ◌<◌, Bool, false, ◌||◌, List, [], ◌∷◌, ◌++◌, none, some, map, ◌≡◌, refl, ap, sym,
  ◌∙◌, subst, arith, if◌then◌else◌, length, get_elem?, get_or, Bytes, bytes_eq, bytes_eq_iff, inl,
  inr, Bool-cases, append-nil, append_assoc,
}
use mathlib.Core.List.{flatten}
use slog_agent.Input.Parser.{LogRecord}
use slog_agent.Orchestrate.KeySet.{
  extract_keys, merge_onto, merge_keys, Pipeline, find_pipeline, new_pipeline, get_or_create,
  has_link, append_link, Sink, accept_record, accept,
}
use slog_agent.Orchestrate.Routing.{has_link-append_link, find_pipeline-get_or_create, found_or}
use slog_agent.Orchestrate.Accepted.{HasKeys, taken_in}

-- The values of the key fields.
abbrev pub keys_of : List ℕ → LogRecord → List Bytes
keys_of locs r = map (λ loc. get_or r.fields loc []) locs

get_elem?-get_or :
    (fields : List Bytes) (i : ℕ)
    → i < length fields
    → get_elem? fields i ≡ some (get_or fields i [])
get_elem?-get_or [] i h = absurd (omega arith)
get_elem?-get_or (x ∷ xs) zero h = refl
get_elem?-get_or (x ∷ xs) (suc i) h = get_elem?-get_or xs i (omega arith)

extract_keys-keys_of :
    (locs : List ℕ) (r : LogRecord) → HasKeys locs r → extract_keys locs r ≡ some (keys_of locs r)
unfolding extract_keys
extract_keys-keys_of [] r h = refl
extract_keys-keys_of (loc ∷ locs) r (h, hs) =
    rw (get_elem?-get_or r.fields loc h, extract_keys-keys_of locs r hs) refl

merge_onto-flatten : (b : Bytes) (keys : List Bytes) → merge_onto b keys ≡ b ++ flatten keys
unfolding merge_onto flatten
merge_onto-flatten b [] = sym (append-nil b)
merge_onto-flatten b (key ∷ keys) =
    merge_onto-flatten (b ++ key) keys ∙ append_assoc b key (flatten keys)

merge_keys-flatten : (keys : List Bytes) → merge_keys keys ≡ flatten keys
unfolding merge_keys
merge_keys-flatten keys = merge_onto-flatten [] keys

-- The pipeline that a key set gets if it is the first with its text.
abbrev pub own_pipeline : List Bytes → Pipeline
own_pipeline keys = new_pipeline keys (flatten keys)

-- The text of the key set of a record, without a separator.
abbrev pub key_text : Sink → LogRecord → Bytes
key_text sink r = flatten (keys_of sink.key_locators r)

find_pipeline-other :
    (k : Bytes) (ps : List Pipeline) (q : Pipeline)
    → find_pipeline k ps ≡ none
    → bytes_eq q.merged_key k ≡ false
    → find_pipeline k (ps ++ q ∷ []) ≡ none
unfolding find_pipeline
find_pipeline-other k [] q h e = ground arith
find_pipeline-other k (p ∷ ps) q h e = ground (arith, find_pipeline-other k ps q)

get_or_create-other :
    (keys : List Bytes) (key k : Bytes) (ps : List Pipeline)
    → find_pipeline key ps ≡ none
    → find_pipeline k ps ≡ none
    → bytes_eq key k ≡ false
    → find_pipeline k (get_or_create keys key ps) ≡ none
unfolding get_or_create
get_or_create-other keys key k ps fresh fresh' e =
    rw fresh (find_pipeline-other k ps (new_pipeline keys key) fresh' e)

-- What is found under the second of two keys: the pipeline of the first if they are equal.
abbrev IsSecond : List Bytes → List Bytes → Sink → Bytes → Bytes → Type 0
IsSecond keys keys' out key key' =
    find_pipeline key' out.pipelines
    ≡ some (if bytes_eq key key' then new_pipeline keys key else new_pipeline keys' key')

taken_in-IsSecond :
    (now : ℕ) (takes takes' : Bool) (r r' : LogRecord) (keys keys' : List Bytes) (sink : Sink)
    → has_link (merge_keys keys) sink.links ≡ false
    → has_link (merge_keys keys') sink.links ≡ false
    → find_pipeline (merge_keys keys) sink.pipelines ≡ none
    → find_pipeline (merge_keys keys') sink.pipelines ≡ none
    → IsSecond keys keys'
        (taken_in now takes' r' keys' (taken_in now takes r keys sink))
        (merge_keys keys)
        (merge_keys keys')
taken_in-IsSecond now takes takes' r r' keys keys' sink l l' f f' =
    let key = merge_keys keys in
    let key' = merge_keys keys' in
    let ps = get_or_create keys key sink.pipelines in
    let linked : has_link key' (append_link now takes key r sink.links) ≡ bytes_eq key key' =
      has_link-append_link now takes key r sink.links key' ∙ ap (λ b. b || bytes_eq key key') l' in
    let first =
      find_pipeline-get_or_create keys sink.pipelines
      ∙ ap (λ o. some (found_or (new_pipeline keys key) o)) f in
    elim (Bool-cases (bytes_eq key key')) [
      | inl same ↦
          rw (l, linked, same)
            (subst (λ k. find_pipeline k ps ≡ some (new_pipeline keys key))
              ((bytes_eq_iff key key').0 same) first)
      | inr other ↦
          rw (l, linked, other)
            (find_pipeline-get_or_create keys' ps
              ∙ ap (λ o. some (found_or (new_pipeline keys' key') o))
                  (get_or_create-other keys key key' sink.pipelines f f' other))
    ]

-- `Accept` of two records with key fields, whose key sets are both new to the sink and to the
-- pipelines: the second has the pipeline made for the keys of the first if the texts of the two key
-- sets, each written without a separator, are equal, and a pipeline of its own if not.
pub accept-shared_pipeline :
    (now : ℕ) (takes : ℕ → Bool) (r r' : LogRecord) (sink : Sink)
    → HasKeys sink.key_locators r
    → HasKeys sink.key_locators r'
    → has_link (key_text sink r) sink.links ≡ false
    → has_link (key_text sink r') sink.links ≡ false
    → find_pipeline (key_text sink r) sink.pipelines ≡ none
    → find_pipeline (key_text sink r') sink.pipelines ≡ none
    → (out : Sink) × (accept now takes (r ∷ r' ∷ []) sink ≡ some out)
      × (find_pipeline (key_text sink r') out.pipelines
          ≡ some (
              if bytes_eq (key_text sink r) (key_text sink r')
              then own_pipeline (keys_of sink.key_locators r)
              else own_pipeline (keys_of sink.key_locators r')))
unfolding accept accept_record
accept-shared_pipeline now takes r r' sink h h' l l' f f' =
    let keys = keys_of sink.key_locators r in
    let keys' = keys_of sink.key_locators r' in
    let e = merge_keys-flatten keys in
    let e' = merge_keys-flatten keys' in
    let out = taken_in now (takes 0) r' keys' (taken_in now (takes 1) r keys sink) in
    (
      out,
      rw (extract_keys-keys_of sink.key_locators r h, extract_keys-keys_of sink.key_locators r' h')
          refl,
      subst (IsSecond keys keys' out (flatten keys)) e' (
          subst (λ k. IsSecond keys keys' out k (merge_keys keys')) e
            (taken_in-IsSecond now (takes 1) (takes 0) r r' keys keys' sink
              (subst (λ k. has_link k sink.links ≡ false) (sym e) l)
              (subst (λ k. has_link k sink.links ≡ false) (sym e') l')
              (subst (λ k. find_pipeline k sink.pipelines ≡ none) (sym e) f)
              (subst (λ k. find_pipeline k sink.pipelines ≡ none) (sym e') f'))),
    )
