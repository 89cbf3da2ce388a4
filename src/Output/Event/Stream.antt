-- ===== src/Output/Event/Stream.antt =====
-- The stream that a serializer makes of a record.
use slog_agent.Base.{
  ℕ, suc, ◌+◌, ◌<◌, ◌≤◌, Bool, false, ◌||◌, List, [], ◌∷◌, ◌++◌, Option, some, map, ltb, ◌==◌,
  if◌then◌else◌, length, length-append, length-drop, append_assoc, take, drop, take-append, Bytes,
  ◌≡◌, refl, ap, sym, ◌∙◌, arith, Bool-cases, inl, inr,
}
use slog_agent.Input.Parser.{LogRecord}
use slog_agent.Msgpack.Writer.{
  Writer, ◌>>◌, encode_array_len4, encode_string4, reserve_len4, reserve_len16,
}
use slog_agent.Msgpack.Laws.{Writes, moved}
use slog_agent.Output.Event.{
  Progress, EventSerializer, environment, encode_fields, encode_event_time, encode_env,
  encode_map_len_within, encode_record,
}
use slog_agent.Output.Event.Value.{Adds, at, LawfulRewriter}
use slog_agent.Output.Event.Fields.{visible}
use slog_agent.Output.Event.Environment.{env_pairs}
use slog_agent.Output.Event.Reserved.{head_bytes, head-Writes, map_header, reserved_lem}

abbrev values_of : EventSerializer → LogRecord → List Bytes
values_of p r = take (length p.field_masks) r.fields

abbrev environment_of : EventSerializer → List Bytes → Writer
environment_of p values =
    let locs = p.env_field_locators in
    encode_string4 environment
    >> encode_map_len_within (length locs) (length locs)
    >> encode_env locs p.serialized_env_field_keys values

encode_record-steps :
    (p : EventSerializer) (r : LogRecord) (values : List Bytes) {b1 b2 b3 : Bytes} {p1 q p3 : ℕ}
    {s : Progress}
    → values_of p r ≡ values
    → ltb (length r.fields) (length p.field_masks) ≡ false
    → (encode_array_len4 2 >> encode_event_time r.timestamp) p.buffer 0 ≡ some (b1, p1)
    → encode_fields p.field_masks p.serialized_field_keys p.field_rewriters values
        (at r b1 (if ltb (length values + 1) 16 then reserve_len4 p1 else reserve_len16 p1) 1)
      ≡ some s
    → encode_map_len_within (length values + 1) s.root_map_size s.buffer p1 ≡ some (b2, q)
    → environment_of p values b2 s.position ≡ some (b3, p3)
    → (p3 == length p.buffer) ≡ false
    → encode_record p r ≡ some (b3, p3, s.record_)
unfolding encode_record
encode_record-steps p r values e h1 h2 h3 h4 h5 h6 = rw (h1, e, h2, h3, h4, h5, h6) refl

start-header :
    (max n start : ℕ)
    → (if ltb max 16 then reserve_len4 start else reserve_len16 start)
      ≡ start + length (map_header max n)
start-header max n start = ground arith

module _ {n : ℕ} (mask : Bytes → Bool) (lawful : Bytes → Option (LawfulRewriter n)) where
  pub length-visible :
      (names values : List Bytes) (r : LogRecord)
      → length (visible mask lawful names values r) ≤ length names
  length-visible [] values r = omega arith
  length-visible (name ∷ names) [] r = omega arith
  length-visible (name ∷ names) (value ∷ values) r =
      elim (Bool-cases (mask name || length value == 0)) [
        | inl skip ↦ rw skip (omega (arith, length-visible names values r))
        | inr show ↦ rw show (omega (arith, length-visible names values _))
      ]

pub length-map :
    {A : Type 0} (f : Bytes → A) (names : List Bytes) → length (map f names) ≡ length names
length-map f [] = refl
length-map f (name ∷ names) = ap suc (length-map f names)

pub length-env_pairs :
    (names values env : List Bytes) → length (env_pairs names values env) ≡ length env
length-env_pairs names values [] = refl
length-env_pairs names values (name ∷ env) = ap suc (length-env_pairs names values env)

lt-not_eq : (a b : ℕ) → a < b → (a == b) ≡ false
lt-not_eq a b h = ground arith

-- The parts of a stream, written one behind another.
pub encode_record-parts :
    (p : EventSerializer) (r : LogRecord) (values : List Bytes) {u : Bool} {need k tneed : ℕ}
    {fe te : Bytes}
    → (let mh = map_header (length values + 1) (1 + k) in
        let stream = (head_bytes r.timestamp ++ (mh ++ fe)) ++ te in
        values_of p r ≡ values
        → ltb (length r.fields) (length p.field_masks) ≡ false
        → Adds
            (encode_fields p.field_masks p.serialized_field_keys p.field_rewriters values)
            r
            u
            need
            fe
            k
        → Writes (encode_map_len_within (length values + 1) (1 + k)) (length mh) mh
        → Writes (environment_of p values) tneed te
        → 11 + (length mh + need) + tneed < length p.buffer
        → (buffer : Bytes) × (encode_record p r
            ≡ some (buffer, length stream, record r { unescaped = u }))
          × (take (length stream) buffer ≡ stream)
          × (length buffer ≡ length p.buffer))
encode_record-parts p r values {u} {need} {k} {tneed} {fe} {te} e h adds hw tw room =
    let mh = map_header (length values + 1) (1 + k) in
    let hb = head_bytes r.timestamp in
    let d = drop 11 p.buffer in
    let m = mh ++ fe in
    let d2 = drop (length m) d in
    let d3 = drop (length te) d2 in
    let stream = (hb ++ m) ++ te in
    let first = (head-Writes r.timestamp).writes [] p.buffer (omega arith) in
    let (b, filled, headed) = reserved_lem adds hw hb d (omega (arith, length-drop 11 p.buffer)) in
    let run : Progress → Option Progress =
      encode_fields p.field_masks p.serialized_field_keys p.field_rewriters values in
    let third =
      ap (λ q. run (at r (hb ++ d) q 1)) (start-header (length values + 1) (1 + k) 11) ∙ filled in
    let fifth =
      moved (environment_of p values) hb m d2
      ∙ tw.writes (hb ++ m) d2 (
          omega (
            arith,
            adds.fits,
            length-append mh fe,
            length-drop 11 p.buffer,
            length-drop (length m) d,
          )) in
    let size : length (hb ++ m) + length te < length p.buffer =
      omega (arith, adds.fits, tw.fits, length-append hb m, length-append mh fe) in
    let runs =
      encode_record-steps p r values e h first third headed fifth
        (lt-not_eq (length (hb ++ m) + length te) (length p.buffer) size) in
    (
      (hb ++ m) ++ (te ++ d3),
      runs
          ∙ ap (λ q. some ((hb ++ m) ++ (te ++ d3), q, record r { unescaped = u }))
              (sym (length-append (hb ++ m) te)),
      ap (take (length stream)) (sym (append_assoc (hb ++ m) te d3)) ∙ take-append stream d3,
      omega (
        arith,
        adds.fits,
        tw.fits,
        length-append (hb ++ m) (te ++ d3),
        length-append te d3,
        length-append hb m,
        length-append mh fe,
        length-drop 11 p.buffer,
        length-drop (length m) d,
        length-drop (length te) d2,
      ),
    )
