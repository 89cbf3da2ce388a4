-- ===== src/Output/Event/Fields.antt =====
-- The loop over the fields of a record.
use slog_agent.Base.{
  ℕ, ◌+◌, ◌<◌, Bool, true, false, ◌||◌, List, [], ◌∷◌, ◌++◌, Option, none, some, map, ◌==◌,
  if◌then◌else◌, length, append_assoc, Bytes, ◌≡◌, refl, arith, Bool-cases, inl, inr, All,
}
use slog_agent.Input.Parser.{LogRecord}
use slog_agent.Transform.Run.{and_then}
use slog_agent.Msgpack.Decode.{read_pairs}
use slog_agent.Msgpack.Laws.{copy_in-Writes}
use slog_agent.Msgpack.RoundTrip.{IsString}
use slog_agent.Output.Event.{RewriterInterface, Progress, encode_value, encode_field, encode_fields}
use slog_agent.Output.Event.Value.{
  Adds, LawfulRewriter, length_header-IsString, encode_string-Writes, string_block,
}
use slog_agent.Output.Event.Field.{
  Adds-as, Adds-wider, encode_rewritten-Adds, Adds-done, Adds-then, Writes-Adds, Writes-then,
}

-- The reader takes these bytes for the pairs, whatever is behind.
abbrev pub IsPairs : Bytes → List (Bytes × Bytes) → Type 0
IsPairs enc pairs = (rest : Bytes) → read_pairs (length pairs) (enc ++ rest) ≡ some (pairs, rest)

pub IsPairs-cons :
    (key enc enc' : Bytes) {name value : Bytes} {pairs : List (Bytes × Bytes)}
    → IsString key name
    → IsString enc value
    → IsPairs enc' pairs
    → IsPairs ((key ++ enc) ++ enc') ((name, value) ∷ pairs)
unfolding read_pairs
IsPairs-cons key enc enc' k v h rest =
    rw
      (
        append_assoc (key ++ enc) enc' rest,
        append_assoc key enc (enc' ++ rest),
        k (enc ++ (enc' ++ rest)),
        v (enc' ++ rest),
        h rest,
      )
      refl

module _ {n : ℕ} where
  abbrev pub interface_of : Option (LawfulRewriter n) → Option RewriterInterface
  interface_of none = none
  interface_of (some L) = some L.interface

  -- The text of a field in the event, and the flag behind it.
  abbrev pub text_of : Option (LawfulRewriter n) → Bytes → LogRecord → Bytes × Bool
  text_of none value r = (value, r.unescaped)
  text_of (some L) value r = L.text value r

  abbrev pub room_of : Option (LawfulRewriter n) → Bytes → LogRecord → ℕ
  room_of none value r = 5 + length value
  room_of (some L) value r = 5 + L.limit value r

  encode_value-Adds :
      (o : Option (LawfulRewriter n)) (value : Bytes) (r : LogRecord)
      → length r.fields ≡ n
      → room_of o value r < 4294967296
      → (enc : Bytes) × Adds
          (encode_value (interface_of o) value)
          r
          (text_of o value r).1
          (room_of o value r)
          enc
          1
        × IsString enc (text_of o value r).0
  unfolding encode_value
  encode_value-Adds none value r e h =
      let (w, reads) = encode_string-Writes value (omega arith) in
      (string_block value, Writes-Adds r 1 w, reads)
  encode_value-Adds (some L) value r e h = (
    _,
    encode_rewritten-Adds L value r e (omega arith),
    length_header-IsString (L.limit value r) (L.text value r).0 (L.within value r e) (omega arith),
  )

  -- A field is written as its pair, in front of the pairs behind it.
  encode_field-Adds :
      (key name : Bytes) (o : Option (LawfulRewriter n)) (value : Bytes) (r : LogRecord)
      → IsString key name
      → length r.fields ≡ n
      → room_of o value r < 4294967296
      → (enc : Bytes) × Adds
          (encode_field key (interface_of o) value)
          r
          (text_of o value r).1
          (length key + room_of o value r)
          enc
          1
        × ((enc' : Bytes) (pairs : List (Bytes × Bytes))
            → IsPairs enc' pairs
            → IsPairs (enc ++ enc') ((name, (text_of o value r).0) ∷ pairs))
  unfolding encode_field
  encode_field-Adds key name o value r k e h =
      let (enc, adds, reads) = encode_value-Adds o value r e h in
      (
        key ++ enc,
        Writes-then (copy_in-Writes key) adds,
        λ enc' pairs h'. IsPairs-cons key enc enc' k reads h',
      )

no_fields : (s : Progress) → encode_fields [] [] [] [] s ≡ some s
unfolding encode_fields
no_fields s = refl

pub no_pairs : (rest : Bytes) → read_pairs 0 ([] ++ rest) ≡ some ([], rest)
unfolding read_pairs
no_pairs rest = refl

parts : (a b c : ℕ) → (5 + a) + b + c < 4294967296 → (c < 4294967296) × (b < 4294967296)
parts a b c h = (omega arith, omega arith)

-- What an event shows of the fields: the pairs of those that are neither masked nor empty. The flag
-- of the record goes from one rewriter to the next.
module _ {n : ℕ} (mask : Bytes → Bool) (lawful : Bytes → Option (LawfulRewriter n)) where
  abbrev pub behind : Bytes → Bytes → LogRecord → LogRecord
  behind name value r = record r { unescaped = (text_of (lawful name) value r).1 }

  abbrev pub visible : List Bytes → List Bytes → LogRecord → List (Bytes × Bytes)
  visible (name ∷ names) (value ∷ values) r =
      let more = visible names values in
      if mask name || length value == 0
      then more r
      else (name, (text_of (lawful name) value r).0) ∷ more (behind name value r)
  visible _ _ r = []

  -- The room that suffices for them.
  abbrev pub fields_room : List Bytes → List Bytes → LogRecord → ℕ
  fields_room (name ∷ names) (value ∷ values) r =
      let more = fields_room names values in
      if mask name || length value == 0
      then more r
      else (5 + length name) + room_of (lawful name) value r + more (behind name value r)
  fields_room _ _ r = 0

  abbrev pub flag_behind : List Bytes → List Bytes → LogRecord → Bool
  flag_behind (name ∷ names) (value ∷ values) r =
      let more = flag_behind names values in
      if mask name || length value == 0 then more r else more (behind name value r)
  flag_behind _ _ r = r.unescaped

  abbrev pub run_fields : List Bytes → List Bytes → Progress → Option Progress
  run_fields names =
      encode_fields (map mask names) (map string_block names)
        (map (λ name. interface_of (lawful name)) names)

  module _ (name value : Bytes) (names values : List Bytes) (s : Progress) where
    skip_field :
        (mask name || length value == 0) ≡ true
        → run_fields (name ∷ names) (value ∷ values) s ≡ run_fields names values s
    unfolding encode_fields
    skip_field e = rw e refl

    show_field :
        (mask name || length value == 0) ≡ false
        → run_fields (name ∷ names) (value ∷ values) s
          ≡ and_then
              (encode_field (string_block name) (interface_of (lawful name)) value s)
              (run_fields names values)
    unfolding encode_fields
    show_field e = rw e refl

  pub encode_fields-Adds :
      (names values : List Bytes) (r : LogRecord)
      → length values ≡ length names
      → length r.fields ≡ n
      → All (λ name. length name < 4294967296) names
      → fields_room names values r < 4294967296
      → (enc : Bytes) × Adds
          (run_fields names values)
          r
          (flag_behind names values r)
          (fields_room names values r)
          enc
          (length (visible names values r))
        × IsPairs enc (visible names values r)
  encode_fields-Adds [] [] r e e' all h = ([], Adds-as no_fields (Adds-done r), no_pairs)
  encode_fields-Adds [] (v ∷ values) r e e' all h = absurd (omega arith)
  encode_fields-Adds (name ∷ names) [] r e e' all h = absurd (omega arith)
  encode_fields-Adds (name ∷ names) (value ∷ values) r e e' (short, all) h =
      let next = behind name value r in
      elim (Bool-cases (mask name || length value == 0)) [
        | inl skip ↦
            (let (enc, adds, reads) =
                encode_fields-Adds names values r (omega arith) e' all (rw skip at h) in
              rw skip (enc, Adds-as (λ s. skip_field name value names values s skip) adds, reads))
        | inr show ↦
            (let (h', room) =
                parts (length name) (room_of (lawful name) value r) (fields_room names values next)
                  (rw show at h) in
              let (key, reads_key) = encode_string-Writes name short in
              let (enc, adds, pair) =
                encode_field-Adds (string_block name) name (lawful name) value r reads_key e'
                  room in
              let (enc', adds', pairs) =
                encode_fields-Adds names values next (omega arith) e' all h' in
              rw show (
                enc ++ enc',
                Adds-wider
                    (Adds-as (λ s. show_field name value names values s show)
                      (Adds-then adds adds'))
                    (omega (arith, key.fits)) (omega arith),
                pair enc' _ pairs,
              ))
      ]
