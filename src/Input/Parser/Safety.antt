-- ===== src/Input/Parser/Safety.antt =====
-- When `Parse` panics.
use slog_agent.Base.{
  ℕ, ◌-◌, ◌/◌, ◌%◌, ◌≤◌, ◌<◌, Bool, true, false, not, ◌&&◌, ◌||◌, List, [], ◌∷◌, ◌++◌, Option, none,
  some, ◌≡◌, ◌≢◌, ◌↔◌, ◌⊎◌, inl, inr, refl, arith, ltb, leb, ◌++◌, length, drop, take, slice,
  get_elem?, get_elem?-lt, set, length-set, replicate, length-replicate, index_byte, bytes_eq,
  bytes_eq_iff, All, Bytes, codes, ℤ, pos, negsuc, Bool-cases, Option-cases,
}
use slog_agent.Input.Protocol.{facility_names, is_digit, test_record_start}
use slog_agent.Input.Protocol.Start.{test_record_start_iff, IsRecord}
use slog_agent.Input.Parser.{
  pri_fields, message, is_some, parse_body, add64, Result, ok, malformed, panic, ◌>>=◌, ◌>>◌,
  require, Parser, LogRecord, InputCounters, put_field, next_field_by_space, or_warn, atoi,
  facility_name, or_panic, severity_name, last_two, parse_rest, parse_pri, parse_header,
  finish_record, parse, invalid_pri, invalid_pri_value, missing_field, invalid_facility, Warning,
  invalid_syslog, unfinished_syslog,
}

-- What `NewParser` establishes: eight level names, and locators inside the schema.
pub record IsParser (p : Parser) : Type 0 where
  pub levels : length p.level_mapping ≡ 8
  pub facility_in : p.facility_locator < p.max_fields
  pub level_in : p.level_locator < p.max_fields
  pub rest_in : All (λ loc. loc < p.max_fields) p.rest_locators
  pub log_in : p.log_locator < p.max_fields

-- No panic, and `P` of a result.
abbrev Safe {ℓ} : {A : Type ℓ} → (A → Type 0) → Result A → Type 0
Safe P (ok a) = P a
Safe P (malformed w) = Unit
Safe P panic = ⊥

module _ {ℓ κ} {A : Type ℓ} {B : Type κ} (Q : B → Type 0) where
  bind-Safe :
      (P : A → Type 0) (m : Result A) (f : A → Result B)
      → Safe P m
      → ((a : A) → P a → Safe Q (f a))
      → Safe Q (m >>= f)
  bind-Safe P (ok a) f h k = k a h
  bind-Safe P (malformed w) f h k = tt
  bind-Safe P panic f h k = absurd h

  or_warn-Safe :
      (o : Option A) (w : Warning) (f : A → Result B)
      → ((a : A) → o ≡ some a → Safe Q (f a))
      → Safe Q (or_warn o w >>= f)
  or_warn-Safe none w f k = tt
  or_warn-Safe (some a) w f k = k a refl

require-Safe {ℓ} :
    {B : Type ℓ} (Q : B → Type 0) (b : Bool) (w : Warning) (m : Result B)
    → (b ≡ true → Safe Q m)
    → Safe Q (require b w >> m)
require-Safe Q true w m k = k refl
require-Safe Q false w m k = tt

abbrev HasFields : ℕ → List Bytes → Type 0
HasFields n fields = length fields ≡ n

put_field-Safe :
    (n loc : ℕ) (value : Bytes) (fields : List Bytes)
    → length fields ≡ n
    → loc < n
    → Safe (HasFields n) (put_field loc value fields)
unfolding put_field
put_field-Safe n loc value fields e h = ground (arith, length-set fields loc value)

-- The result of `parse`, and the counters, where the header raises no panic.
abbrev pub Counted : InputCounters → Bytes → Result LogRecord × InputCounters → Type 0
Counted c input (ok r, c') =
    (c'.passed_count ≡ add64 c.passed_count 1)
    × (c'.passed_length ≡ add64 c.passed_length (length input))
    × (c'.dropped_count ≡ c.dropped_count)
    × (c'.dropped_length ≡ c.dropped_length)
Counted c input (malformed w, c') =
    (c'.dropped_count ≡ add64 c.dropped_count 1)
    × (c'.dropped_length ≡ add64 c.dropped_length (length input))
    × (c'.passed_count ≡ c.passed_count)
    × (c'.passed_length ≡ c.passed_length)
Counted c input (panic, c') = ⊥

first_byte :
    (a b : ℕ) (s : Bytes)
    → not (ltb (length (a ∷ b ∷ s)) 32 || not (bytes_eq (a ∷ []) (codes "<"))) ≡ true
    → a ≡ b'<'
unfolding bytes_eq
first_byte a b s h = ground arith

panic_cases :
    (input : Bytes)
    → ((32 ≤ length input) × (take 2 input ≡ codes "< "))
      ⊎ ¬ ((32 ≤ length input) × (take 2 input ≡ codes "< "))
panic_cases input =
    elim (Bool-cases (leb 32 (length input) && bytes_eq (take 2 input) (codes "< "))) [
      | inl both ↦ inl (ground (arith, bytes_eq_iff (take 2 input) (codes "< ")))
      | inr not_both ↦
          inr (λ (le, e). ground (arith, (bytes_eq_iff (take 2 input) (codes "< ")).1 e))
    ]

record_second_of :
    (pri rest : Bytes)
    → All (λ c. is_digit c ≡ true) pri
    → 1 ≤ length pri
    → take 2 (b'<' ∷ (pri ++ rest)) ≢ codes "< "
record_second_of [] rest d len e = absurd (omega arith)
record_second_of (c ∷ pri) rest (d, _) len e = ground arith

record_second : {input : Bytes} → IsRecord input → take 2 input ≢ codes "< "
record_second r e = record_second_of r.pri _ r.digits r.at_least_one (rw r.shape at e)

module _ (p : Parser) (good : IsParser p) where
  abbrev Q : List Bytes → Type 0
  Q = HasFields p.max_fields

  pri_fields-Safe : (v : ℤ) → Safe Q (pri_fields p v)
  unfolding pri_fields facility_name severity_name
  pri_fields-Safe (negsuc n) = tt
  pri_fields-Safe (pos n) =
      or_warn-Safe Q (get_elem? facility_names (n / 8)) invalid_facility
        (λ name. do
          fields ← put_field p.facility_locator name (replicate p.max_fields [])
          severity ← or_panic (get_elem? p.level_mapping (n % 8))
          put_field p.level_locator severity fields)
        (λ name _.
          let (level, at) = get_elem?-lt p.level_mapping (n % 8) (omega (arith, good.levels)) in
          rw at (
            bind-Safe Q Q (put_field p.facility_locator name (replicate p.max_fields []))
              (put_field p.level_locator level)
              (put_field-Safe p.max_fields p.facility_locator name (replicate p.max_fields [])
                (length-replicate p.max_fields []) good.facility_in)
              (λ fields e.
                put_field-Safe p.max_fields p.level_locator level fields e good.level_in)))

  parse_pri-Safe : (val : Bytes) → 2 ≤ length val → Safe Q (parse_pri p val)
  unfolding parse_pri last_two
  parse_pri-Safe val h = elim (Bool-cases (ltb (length val) 2)) [
    | inl short ↦ absurd (ground arith)
    | inr long ↦ rw long (
        require-Safe Q (bytes_eq (drop (length val - 2) val) (codes ">1")) invalid_pri
          (or_warn (atoi (slice val 1 (length val - 2))) invalid_pri_value >>= pri_fields p)
          (λ _.
            or_warn-Safe Q (atoi (slice val 1 (length val - 2))) invalid_pri_value (pri_fields p)
              (λ v _. pri_fields-Safe v)))
  ]

  parse_rest-Safe :
      (locs : List ℕ) (fields : List Bytes) (remaining : Bytes)
      → All (λ loc. loc < p.max_fields) locs
      → Q fields
      → Safe (λ (t : List Bytes × Bytes). Q t.0) (parse_rest locs fields remaining)
  unfolding parse_rest
  parse_rest-Safe [] fields remaining h e = e
  parse_rest-Safe (loc ∷ locs) fields remaining (h, hs) e =
      or_warn-Safe (λ (t : List Bytes × Bytes). Q t.0) (next_field_by_space remaining)
        (missing_field loc) _
        (λ (val, next) _.
          bind-Safe (λ (t : List Bytes × Bytes). Q t.0) Q (put_field loc val fields) _
            (put_field-Safe p.max_fields loc val fields e h)
            (λ fields' e'. parse_rest-Safe locs fields' next hs e'))

  -- The first field has two bytes, unless the text begins with `< `.
  field_length :
      (a b : ℕ) (s val next : Bytes)
      → a ≡ b'<'
      → (a ∷ b ∷ [] ≢ codes "< ")
      → next_field_by_space (a ∷ b ∷ s) ≡ some (val, next)
      → 2 ≤ length val
  unfolding next_field_by_space index_byte
  field_length a b s val next e h k = elim (Option-cases (index_byte s b' ')) [
    | inl none_found ↦ absurd (ground arith)
    | inr (i, found) ↦ ground arith
  ]

  header-Safe :
      (input : Bytes)
      → take 2 input ≢ codes "< "
      → Safe (λ (t : List Bytes × Bytes). Q t.0) (parse_header p input)
  unfolding parse_header
  header-Safe [] h = tt
  header-Safe (a ∷ []) h = tt
  header-Safe (a ∷ b ∷ s) h =
      require-Safe (λ (t : List Bytes × Bytes). Q t.0)
        (not (ltb (length (a ∷ b ∷ s)) 32 || not (bytes_eq (a ∷ []) (codes "<")))) invalid_syslog _
        (λ head.
          or_warn-Safe (λ (t : List Bytes × Bytes). Q t.0) (next_field_by_space (a ∷ b ∷ s))
            unfinished_syslog _
            (λ (val, next) found.
              bind-Safe (λ (t : List Bytes × Bytes). Q t.0) Q (parse_pri p val) _
                (parse_pri-Safe val (field_length a b s val next (first_byte a b s head) h found))
                (λ fields e. parse_rest-Safe p.rest_locators fields next good.rest_in e)))

  header_panics :
      (input : Bytes) → 32 ≤ length input → take 2 input ≡ codes "< " → parse_header p input ≡ panic
  unfolding parse_header next_field_by_space parse_pri last_two index_byte bytes_eq
  header_panics [] len h = absurd (omega arith)
  header_panics (a ∷ []) len h = absurd (omega arith)
  header_panics (a ∷ b ∷ s) len h = ground arith

  finish_record-Safe :
      (input : Bytes) (timestamp : ℕ) (fields : List Bytes) (remaining : Bytes)
      → Q fields
      → (r : LogRecord) × (finish_record p input timestamp fields remaining ≡ ok r)
  unfolding finish_record put_field
  finish_record-Safe input timestamp fields remaining e =
      let inside : ltb p.log_locator (length fields) ≡ true = ground (arith, good.log_in) in
      let log = message (length input) remaining in
      (
        record {
          fields = set fields p.log_locator log;
          raw_length = length input;
          timestamp = timestamp;
          unescaped = is_some (index_byte log b'\n');
        },
        rw inside,
      )

  body-Counted :
      (input : Bytes) (timestamp : ℕ) (c : InputCounters) (h : Result (List Bytes × Bytes))
      → Safe (λ (t : List Bytes × Bytes). Q t.0) h
      → Counted c input (parse_body p input timestamp c h)
  unfolding parse
  body-Counted input timestamp c (ok (fields, remaining)) e =
      let (r, done) = finish_record-Safe input timestamp fields remaining e in
      rw done (ground arith)
  body-Counted input timestamp c (malformed w) e = (refl, refl, refl, refl)
  body-Counted input timestamp c panic e = absurd e

  header_short :
      (input : Bytes) → ¬ (32 ≤ length input) → parse_header p input ≡ malformed invalid_syslog
  unfolding parse_header
  header_short input h = ground arith

  header-Safe_unless :
      (input : Bytes)
      → ¬ ((32 ≤ length input) × (take 2 input ≡ codes "< "))
      → Safe (λ (t : List Bytes × Bytes). Q t.0) (parse_header p input)
  header-Safe_unless input h = elim (Bool-cases (bytes_eq (take 2 input) (codes "< "))) [
    | inl same ↦
        let e = (bytes_eq_iff (take 2 input) (codes "< ")).0 same in
        rw (header_short input (λ long. h (long, e))) tt
    | inr differs ↦
        header-Safe input (λ e. let same = (bytes_eq_iff (take 2 input) (codes "< ")).1 e in cc)
  ]

  -- Every input on which `Parse` does not panic is counted exactly once with its length: as passed
  -- if a record is returned, and as dropped if not. The other two counters stay.
  pub parse_counts :
      (c : InputCounters) (input : Bytes) (timestamp : ℕ)
      → ¬ ((32 ≤ length input) × (take 2 input ≡ codes "< "))
      → Counted c input (parse p c input timestamp)
  unfolding parse parse_body
  parse_counts c input timestamp h =
      body-Counted input timestamp c (parse_header p input) (header-Safe_unless input h)

  Counted-ne-panic :
      (c : InputCounters) (input : Bytes) (r : Result LogRecord × InputCounters)
      → Counted c input r
      → r.0 ≢ panic
  Counted-ne-panic c input (ok r, c') h e = cc
  Counted-ne-panic c input (malformed w, c') h e = cc
  Counted-ne-panic c input (panic, c') h e = h

  -- `Parse` panics, on a slice out of range, exactly for the inputs of at least 32 bytes that begin
  -- with `<` and a space, for a parser as `NewParser` makes it.
  pub parse_panics_iff :
      (c : InputCounters) (input : Bytes) (timestamp : ℕ)
      → ((parse p c input timestamp).0 ≡ panic)
        ↔ ((32 ≤ length input) × (take 2 input ≡ codes "< "))
  parse_panics_iff c input timestamp = (
    λ e. elim (panic_cases input) [
      | inl bad ↦ bad
      | inr good_input ↦ absurd (
          Counted-ne-panic c input (parse p c input timestamp)
            (parse_counts c input timestamp good_input) e)
    ],
    λ h. unfold parse in rw (header_panics input h.0 h.1),
  )

  -- `Parse` does not panic on what `TestRecordStart` takes for the start of a record.
  pub parse-test_record_start :
      (c : InputCounters) (input : Bytes) (timestamp : ℕ)
      → test_record_start input ≡ true
      → (parse p c input timestamp).0 ≢ panic
  parse-test_record_start c input timestamp h e =
      record_second ((test_record_start_iff input).0 h).1
        ((parse_panics_iff c input timestamp).0 e).1
