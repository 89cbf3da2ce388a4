-- ===== src/Output/Event/Environment.antt =====
-- The environment fields: their locators, and their map in the buffer.
use slog_agent.Base.{
  ℕ, suc, ◌+◌, ◌<◌, true, false, List, [], ◌∷◌, ◌++◌, some, map, if◌then◌else◌, length, Bytes,
  bytes_eq, ◌≡◌, refl, arith, Bool-cases, inl, inr, All,
}
use slog_agent.Transform.Matcher.{get_field}
use slog_agent.Msgpack.Writer.{◌>>◌, copy_in}
use slog_agent.Msgpack.Laws.{Writes, Writes-as, Writes-wider, same_place, >>-Writes, copy_in-Writes}
use slog_agent.Output.Event.{encode_string, encode_env, locate, locate_all, listed}
use slog_agent.Output.Event.Value.{encode_string-Writes, string_block}
use slog_agent.Output.Event.Fields.{IsPairs, no_pairs, IsPairs-cons}

-- The value of the first field of a name.
abbrev pub value_of : Bytes → List Bytes → List Bytes → Bytes
value_of name (n ∷ names) (value ∷ values) =
    let behind = value_of name names values in if bytes_eq n name then value else behind
value_of name _ _ = []

abbrev pub env_pairs : List Bytes → List Bytes → List Bytes → List (Bytes × Bytes)
env_pairs names values [] = []
env_pairs names values (name ∷ env) =
    (name, value_of name names values) ∷ env_pairs names values env

abbrev pub env_room : List Bytes → List Bytes → List Bytes → ℕ
env_room names values [] = 0
env_room names values (name ∷ env) =
    ((5 + length name) + (5 + length (value_of name names values))) + env_room names values env

value_of_hit :
    (n name : Bytes) (names values : List Bytes)
    → bytes_eq n name ≡ true
    → length values ≡ suc (length names)
    → get_field 0 values ≡ some (value_of name (n ∷ names) values)
value_of_hit n name names [] hit e = absurd (omega arith)
value_of_hit n name names (value ∷ values) hit e = rw hit refl

value_of_miss :
    (n name : Bytes) (names values : List Bytes) (i : ℕ)
    → bytes_eq n name ≡ false
    → ((values' : List Bytes)
        → length values' ≡ length names
        → get_field i values' ≡ some (value_of name names values'))
    → length values ≡ suc (length names)
    → get_field (suc i) values ≡ some (value_of name (n ∷ names) values)
value_of_miss n name names [] i miss found e = absurd (omega arith)
value_of_miss n name names (value ∷ values) i miss found e = rw miss (found values (omega arith))

locate_lem :
    (names : List Bytes) (name : Bytes)
    → listed names name ≡ true
    → (i : ℕ) × (locate names name ≡ some i)
      × ((values : List Bytes)
          → length values ≡ length names
          → get_field i values ≡ some (value_of name names values))
unfolding locate listed
locate_lem [] name h = absurd (ground arith)
locate_lem (n ∷ names) name h = elim (Bool-cases (bytes_eq n name)) [
  | inl hit ↦ (0, rw hit refl, λ values el. value_of_hit n name names values hit el)
  | inr miss ↦
      (let (i, e, found) = locate_lem names name (rw miss at h) in
        (suc i, rw (miss, e) refl, λ values el. value_of_miss n name names values i miss found el))
]

-- Each locator finds the value of its name.
abbrev pub Located : List Bytes → List Bytes → List ℕ → List Bytes → Type 0
Located names values [] [] = Unit
Located names values (loc ∷ locs) (name ∷ env) =
    (get_field loc values ≡ some (value_of name names values)) × Located names values locs env
Located names values _ _ = ⊥

pub locate_all_lem :
    (names env : List Bytes)
    → All (λ name. listed names name ≡ true) env
    → (locs : List ℕ) × (locate_all names env ≡ some locs)
      × (length locs ≡ length env)
      × ((values : List Bytes) → length values ≡ length names → Located names values locs env)
unfolding locate_all
locate_all_lem names [] h = ([], refl, refl, λ values e. tt)
locate_all_lem names (name ∷ env) (h, hs) =
    let (i, e, found) = locate_lem names name h in
    let (locs, es, same, all) = locate_all_lem names env hs in
    (i ∷ locs, rw (e, es) refl, omega arith, λ values el. (found values el, all values el))

no_env-Writes : (keys values : List Bytes) → Writes (encode_env [] keys values) 0 []
unfolding encode_env
no_env-Writes keys values = record {
  fits = omega arith;
  writes = λ before old room. same_place refl (omega arith);
}

env_step :
    (loc : ℕ) (locs : List ℕ) (name : Bytes) (env : List Bytes) (value : Bytes)
    (values : List Bytes)
    → get_field loc values ≡ some value
    → (buffer : Bytes) (position : ℕ)
    → encode_env (loc ∷ locs) (string_block name ∷ map string_block env) values buffer position
      ≡ (copy_in (string_block name)
            >> encode_string value
            >> encode_env locs (map string_block env) values)
          buffer position
unfolding encode_env
env_step loc locs name env value values found buffer position = rw found refl

pub encode_env-Writes :
    (names values : List Bytes) (locs : List ℕ) (env : List Bytes)
    → Located names values locs env
    → All (λ name. length name < 4294967296) env
    → env_room names values env < 4294967296
    → (enc : Bytes) × Writes
        (encode_env locs (map string_block env) values)
        (env_room names values env)
        enc
      × IsPairs enc (env_pairs names values env)
encode_env-Writes names values [] [] l all h = ([], no_env-Writes [] values, no_pairs)
encode_env-Writes names values (loc ∷ locs) [] l all h = absurd l
encode_env-Writes names values [] (name ∷ env) l all h = absurd l
encode_env-Writes names values (loc ∷ locs) (name ∷ env) (found, l) (short, all) h =
    let value = value_of name names values in
    let (key, reads_key) = encode_string-Writes name short in
    let (w, reads) = encode_string-Writes value (omega arith) in
    let (enc, ws, pairs) = encode_env-Writes names values locs env l all (omega arith) in
    (
      (string_block name ++ string_block value) ++ enc,
      Writes-as (env_step loc locs name env value values found) (
          Writes-wider (>>-Writes (>>-Writes (copy_in-Writes (string_block name)) w) ws)
            (omega (arith, key.fits))),
      IsPairs-cons (string_block name) (string_block value) enc reads_key reads pairs,
    )
