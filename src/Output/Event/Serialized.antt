-- ===== src/Output/Event/Serialized.antt =====
-- The event of a record that a serializer writes.
use slog_agent.Base.{
  ℕ, suc, ◌+◌, ◌<◌, ◌≤◌, Bool, false, List, ◌++◌, Option, some, map, ltb, length, length-take,
  append_assoc, take, Bytes, ◌≡◌, ap, sym, ◌∙◌, subst, arith, All,
}
use slog_agent.Input.Parser.{LogRecord}
use slog_agent.Msgpack.Decode.{Event, read_event}
use slog_agent.Msgpack.Laws.{Writes, Writes-wider, >>-Writes}
use slog_agent.Msgpack.RoundTrip.{header4, IsMapLen}
use slog_agent.Msgpack.Writer.{◌>>◌, encode_string4}
use slog_agent.Output.Event.{
  EventSerializer, environment, encode_record, encode_map_len_within, encode_env,
}
use slog_agent.Output.Event.Value.{LawfulRewriter, string_block}
use slog_agent.Output.Event.Fields.{
  IsPairs, interface_of, visible, fields_room, flag_behind, encode_fields-Adds,
}
use slog_agent.Output.Event.Environment.{Located, env_pairs, env_room, encode_env-Writes}
use slog_agent.Output.Event.Reserved.{head_bytes, map_header, encode_map_len_within-Writes}
use slog_agent.Output.Event.RoundTrip.{event_of, read_event-parts, environment-Writes}
use slog_agent.Output.Event.Stream.{
  encode_record-parts, length-visible, length-map, length-env_pairs,
}

map_header_le : (max n : ℕ) → length (map_header max n) ≤ 3
map_header_le max n = ground arith

-- The end of a stream, with its environment.
environment-written :
    (names values : List Bytes) (locs : List ℕ) (env : List Bytes)
    → Located names values locs env
    → All (λ name. length name < 4294967296) env
    → length env < 65536
    → length locs ≡ length env
    → env_room names values env < 4294967296
    → (mh ee : Bytes) × Writes
        (encode_string4 environment
          >> encode_map_len_within (length locs) (length locs)
          >> encode_env locs (map string_block env) values)
        (15 + env_room names values env)
        ((header4 11 ++ environment ++ mh) ++ ee)
      × IsMapLen mh (length (env_pairs names values env))
      × IsPairs ee (env_pairs names values env)
environment-written names values locs env located short few same room =
    let n = length locs in
    let (ee, w, pairs) = encode_env-Writes names values locs env located short room in
    let (hw, reads) = encode_map_len_within-Writes n n (omega arith) (omega (arith, same)) in
    (
      map_header n n,
      ee,
      Writes-wider (>>-Writes (>>-Writes environment-Writes.0 hw) w)
          (omega (arith, map_header_le n n)),
      subst (IsMapLen (map_header n n)) (same ∙ sym (length-env_pairs names values env)) reads,
      pairs,
    )

one_plus : (n : ℕ) → 1 + n ≡ suc n
one_plus n = omega arith

read_event-front :
    (t : ℕ) (mh fe mh' ee : Bytes) (fields env : List (Bytes × Bytes))
    → IsMapLen mh (1 + length fields)
    → IsPairs fe fields
    → IsMapLen mh' (length env)
    → IsPairs ee env
    → (rest : Bytes)
    → read_event
        (((head_bytes t ++ (mh ++ fe)) ++ ((header4 11 ++ environment ++ mh') ++ ee)) ++ rest)
      ≡ some (event_of t fields env, rest)
read_event-front t mh fe mh' ee fields env m f m' e rest =
    let key = header4 11 ++ environment in
    let front = head_bytes t ++ (mh ++ fe) in
    ap read_event (
      append_assoc front ((key ++ mh') ++ ee) rest
      ∙ ap (λ s. front ++ (s ++ rest)) (append_assoc key mh' ee))
    ∙ read_event-parts t mh fe mh' ee rest fields env
        (subst (IsMapLen mh) (one_plus (length fields)) m) f m' e

not_less : (a b : ℕ) → b ≤ a → ltb a b ≡ false
not_less a b h = ground arith

-- A serializer for these names, with a buffer.
module _ {n : ℕ} (mask : Bytes → Bool) (lawful : Bytes → Option (LawfulRewriter n))
    (names env : List Bytes) where
  abbrev pub serializer : List ℕ → Bytes → EventSerializer
  serializer locs buffer = record {
    field_masks = map mask names;
    env_field_locators = locs;
    field_rewriters = map (λ name. interface_of (lawful name)) names;
    serialized_field_keys = map string_block names;
    serialized_env_field_keys = map string_block env;
    buffer = buffer;
  }

  -- The fields of the record that have names.
  abbrev pub values_in : LogRecord → List Bytes
  values_in r = take (length names) r.fields

  abbrev pub event_room : LogRecord → ℕ
  event_room r =
      29 + fields_room mask lawful names (values_in r) r + env_room names (values_in r) env

  abbrev pub shown_event : LogRecord → Event
  shown_event r =
      event_of r.timestamp (visible mask lawful names (values_in r) r)
        (env_pairs names (values_in r) env)

  -- Of a record with room enough, the event is in the front of the buffer.
  abbrev pub Serialized : EventSerializer → LogRecord → Type 0
  Serialized p r =
      (stream buffer : Bytes) × (u : Bool) × (encode_record p r
        ≡ some (buffer, length stream, record r { unescaped = u }))
      × (take (length stream) buffer ≡ stream)
      × (length buffer ≡ length p.buffer)
      × (0 < length stream)
      × ((rest : Bytes) → read_event (stream ++ rest) ≡ some (shown_event r, rest))

  pub encode_record-Serialized :
      (r : LogRecord) (locs : List ℕ) (buffer : Bytes)
      → length r.fields ≡ n
      → length names ≤ n
      → length names + 1 < 65536
      → length env < 65536
      → length locs ≡ length env
      → All (λ name. length name < 4294967296) names
      → All (λ name. length name < 4294967296) env
      → Located names (values_in r) locs env
      → event_room r < length buffer
      → length buffer < 4294967296
      → Serialized (serializer locs buffer) r
  encode_record-Serialized r locs buffer en le few few' same short short' located room small =
      let values = values_in r in
      let t = r.timestamp in
      let shown = visible mask lawful names values r in
      let len : length values ≡ length names = omega (arith, length-take (length names) r.fields) in
      let (fe, adds, pairs) =
        encode_fields-Adds mask lawful names values r len en short (omega arith) in
      let (hw, reads) =
        encode_map_len_within-Writes (length values + 1) (1 + length shown)
          (omega (arith, len, length-visible mask lawful names values r)) (omega (arith, len)) in
      let mh = map_header (length values + 1) (1 + length shown) in
      let (mh', ee, tail, reads', pairs') =
        environment-written names values locs env located short' few' same (omega arith) in
      let sized = length-map mask names in
      let (b, runs, front, kept) =
        encode_record-parts (serializer locs buffer) r values (ap (λ k. take k r.fields) sized)
          (not_less _ _ (omega (arith, sized))) adds hw tail
          (omega (arith, map_header_le (length values + 1) (1 + length shown))) in
      (
        (head_bytes t ++ (mh ++ fe)) ++ ((header4 11 ++ environment ++ mh') ++ ee),
        b,
        flag_behind mask lawful names values r,
        runs,
        front,
        kept,
        omega arith,
        read_event-front t mh fe mh' ee shown (env_pairs names values env) reads pairs reads'
            pairs',
      )
