-- ===== src/Transform/Fits.antt =====
-- What it means that the locators of transforms are inside the schema, and that the operations on
-- fields keep the number of fields then.
use slog_agent.Base.{
  ℕ, ◌<◌, Bool, true, false, List, [], ◌∷◌, Option, none, some, ◌≡◌, refl, arith, length,
  get_elem?-lt, set, length-set, All, Bytes, Bool-cases, inl, inr,
}
use slog_agent.Input.Parser.{LogRecord}
use slog_agent.Transform.Matcher.{LogMatcher, match_fields, match_value}
use slog_agent.Transform.Run.{
  Transform, Transforms, Cases, if_, switch_, block, add_fields, del_fields, drop_, map_value,
  truncate, other, done, then_, no_case, case_, Outcome, set_field, delete_fields, expand_fields,
  map_field, truncate_field, lookup, truncate_value,
}

module _ (n : ℕ) where
  abbrev pub LocatorFits : {A : Type 0} → ℕ × A → Type 0
  LocatorFits p = p.0 < n

  -- A result with `n` fields.
  abbrev pub Sized : Option (List Bytes) → Type 0
  Sized none = ⊥
  Sized (some fields) = length fields ≡ n

  abbrev pub Good : {T : Type 0} → (T → Type 0) → Outcome T → Type 0
  Good P none = ⊥
  Good P (some (r, record_, t)) = (length record_.fields ≡ n) × P t

  abbrev pub Stays : Option (Bool × LogRecord) → Type 0
  Stays none = ⊥
  Stays (some (r, record_)) = length record_.fields ≡ n

  -- Every locator is below `n`, and transforms of other packages keep `n` fields.
  abbrev mutual
    pub Fits : Transform → Type 0
    Fits (if_ m steps) = All LocatorFits m × FitsAll steps
    Fits (switch_ cases) = FitsCases cases
    Fits (block steps) = FitsAll steps
    Fits (add_fields pairs) = All LocatorFits pairs
    Fits (del_fields locs) = All (λ loc. loc < n) locs
    Fits (drop_ tf) = All LocatorFits tf.matcher
    Fits (map_value loc mapping default_value) = loc < n
    Fits (truncate loc max_length suffix) = loc < n
    Fits (other f) = (record_ : LogRecord) → length record_.fields ≡ n → Stays (f record_)

    pub FitsAll : Transforms → Type 0
    FitsAll done = Unit
    FitsAll (then_ t ts) = Fits t × FitsAll ts

    pub FitsCases : Cases → Type 0
    FitsCases no_case = Unit
    FitsCases (case_ m steps cases) = All LocatorFits m × FitsAll steps × FitsCases cases

  pub set_field-Sized :
      (loc : ℕ) (value : Bytes) (fields : List Bytes)
      → loc < n
      → length fields ≡ n
      → Sized (set_field loc value fields)
  unfolding set_field
  set_field-Sized loc value fields h e = ground (arith, length-set fields loc value)

  pub delete_fields-Sized :
      (locs : List ℕ) (fields : List Bytes)
      → All (λ loc. loc < n) locs
      → length fields ≡ n
      → Sized (delete_fields locs fields)
  unfolding delete_fields set_field
  delete_fields-Sized [] fields h e = e
  delete_fields-Sized (loc ∷ locs) fields (h, hs) e =
      ground (arith, length-set fields loc [], delete_fields-Sized locs (set fields loc []) hs)

  pub expand_fields-Sized :
      (pairs : List (ℕ × (List Bytes → Bytes))) (fields : List Bytes)
      → All LocatorFits pairs
      → length fields ≡ n
      → Sized (expand_fields pairs fields)
  unfolding expand_fields set_field
  expand_fields-Sized [] fields h e = e
  expand_fields-Sized ((loc, template) ∷ pairs) fields (h, hs) e =
      let value = template fields in
      ground (
        arith,
        length-set fields loc value,
        expand_fields-Sized pairs fields hs e,
        expand_fields-Sized pairs (set fields loc value) hs,
      )

  pub map_field-Sized :
      (loc : ℕ) (mapping : List (Bytes × Bytes)) (d : Bytes) (fields : List Bytes)
      → loc < n
      → length fields ≡ n
      → Sized (map_field loc mapping d fields)
  unfolding map_field
  map_field-Sized loc mapping d fields h e =
      let (value, found) = get_elem?-lt fields loc (omega arith) in
      ground (arith, set_field-Sized loc (lookup mapping value d) fields h e)

  pub truncate_field-Sized :
      (loc k : ℕ) (suffix : Bytes) (fields : List Bytes)
      → loc < n
      → length fields ≡ n
      → Sized (truncate_field loc k suffix fields)
  unfolding truncate_field
  truncate_field-Sized loc k suffix fields h e =
      let (value, found) = get_elem?-lt fields loc (omega arith) in
      ground (arith, set_field-Sized loc (truncate_value k suffix value) fields h e)

  pub match_fields-some :
      (m : LogMatcher) (fields : List Bytes)
      → All LocatorFits m
      → length fields ≡ n
      → (b : Bool) × (match_fields m fields ≡ some b)
  unfolding match_fields
  match_fields-some [] fields h e = (true, refl)
  match_fields-some ((loc, v) ∷ m) fields (h, hs) e =
      let (value, found) = get_elem?-lt fields loc (omega arith) in
      elim (Bool-cases (match_value v value)) [
        | inl hit ↦
            let (b, rest) = match_fields-some m fields hs e in
            (b, rw (found, hit, match_fields) rest)
        | inr miss ↦ (false, rw (found, miss, match_fields) refl)
      ]
