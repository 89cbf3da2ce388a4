-- ===== src/Output/Event/Served.antt =====
-- Serializers as they are made and used, from record to record.
use slog_agent.Base.{
  ℕ, ◌+◌, ◌*◌, ◌<◌, ◌≤◌, Bool, false, true, ◌||◌, bytes_eq, List, [], ◌∷◌, ◌++◌, Option, some, map,
  length, length-take, length-replicate, replicate, take, Bytes, ◌≡◌, refl, ap, ◌∙◌, arith, All,
}
use slog_agent.Input.Parser.{LogRecord, max_record_bytes}
use slog_agent.Msgpack.Decode.{read_event}
use slog_agent.Output.Event.{
  EventSerializer, SerializationConfig, encode_record, serialize_record, serialize_strings, mask_of,
  listed, new_event_serializer,
}
use slog_agent.Output.Event.Value.{LawfulRewriter, string_block, serialize_string-block}
use slog_agent.Output.Event.Fields.{interface_of}
use slog_agent.Output.Event.Environment.{Located, locate_all_lem}
use slog_agent.Output.Event.Serialized.{
  serializer, values_in, event_room, shown_event, encode_record-Serialized,
}

serialize_strings-blocks :
    (keys : List Bytes)
    → All (λ key. length key < 4294967296) keys
    → serialize_strings keys ≡ some (map string_block keys)
unfolding serialize_strings
serialize_strings-blocks [] h = refl
serialize_strings-blocks (key ∷ keys) (h, hs) =
    rw (serialize_string-block key h, serialize_strings-blocks keys hs) refl

serialize_record-front :
    (p : EventSerializer) (r : LogRecord) {b stream : Bytes} {k : ℕ} {r' : LogRecord}
    → encode_record p r ≡ some (b, k, r')
    → take k b ≡ stream
    → serialize_record p r ≡ some (stream, record p { buffer = b }, r')
unfolding serialize_record
serialize_record-front p r {b} {stream} {k} {r'} e front =
    rw e (ap (λ s. some (s, record p { buffer = b }, r')) front)

-- Which fields a configuration takes out of the field list of the events: the environment fields and
-- the hidden fields, all names of them, as one list.
unfoldable pub occurs : Bytes → List Bytes → Bool
occurs name [] = false
occurs name (n ∷ names) = occurs name names || bytes_eq n name

abbrev pub masked : List Bytes → List Bytes → Bytes → Bool
masked env hidden name = occurs name (env ++ hidden)

occurs-listed : (name : Bytes) (names : List Bytes) → occurs name names ≡ listed names name
unfolding occurs listed
occurs-listed name [] = refl
occurs-listed name (n ∷ names) = let rest = occurs-listed name names in ground (arith, rest)

occurs-append :
    (name : Bytes) (front bs : List Bytes)
    → occurs name (front ++ bs) ≡ (occurs name front || occurs name bs)
unfolding occurs
occurs-append name [] bs = refl
occurs-append name (a ∷ front) bs = let rest = occurs-append name front bs in ground (arith, rest)

mask_of-masked :
    (config : SerializationConfig) (name : Bytes)
    → mask_of config name ≡ masked config.environment_fields config.hidden_fields name
unfolding mask_of
mask_of-masked config name =
    let both = occurs-append name config.environment_fields config.hidden_fields in
    let env = occurs-listed name config.environment_fields in
    let hidden = occurs-listed name config.hidden_fields in ground (arith, both, env, hidden)

map-mask_of :
    (config : SerializationConfig) (names : List Bytes)
    → map (mask_of config) names ≡ map (masked config.environment_fields config.hidden_fields) names
map-mask_of config [] = refl
map-mask_of config (name ∷ names) = rw (mask_of-masked config name, map-mask_of config names) refl

-- A schema and a configuration that name known fields, not too many of them. The records have `n`
-- fields, of which the first have names.
pub record FitsSchema (n : ℕ) (names env : List Bytes) : Type 0 where
  pub has_names : length names ≤ n
  pub few_names : length names + 1 < 65536
  pub few_env : length env < 65536
  pub short_names : All (λ name. length name < 4294967296) names
  pub short_env : All (λ name. length name < 4294967296) env
  pub known_env : All (λ name. listed names name ≡ true) env

module _ {n : ℕ} (names env hidden : List Bytes) (lawful : Bytes → Option (LawfulRewriter n)) where
  abbrev pub config : SerializationConfig
  config = record {
    environment_fields = env;
    hidden_fields = hidden;
    rewriter_of = λ name. interface_of (lawful name);
  }

  -- A serializer of this configuration, at any time of its use.
  abbrev pub IsSerializer : EventSerializer → Type 0
  IsSerializer p =
      (locs : List ℕ) × (buffer : Bytes) × (p
        ≡ serializer (masked env hidden) lawful names env locs buffer)
      × (length buffer ≡ 2 * max_record_bytes)
      × (length locs ≡ length env)
      × ((values : List Bytes) → length values ≡ length names → Located names values locs env)

  -- Where the environment fields are known, and the names are not too many and not too long, the
  -- constructor returns a serializer of the configuration: it leaves out of the field list the
  -- environment fields, the hidden fields and no others, has the written names and the rewriters of
  -- the fields, finds the environment fields where they stand, and has a buffer of the full size.
  pub new_event_serializer-IsSerializer :
      FitsSchema n names env
      → (p : EventSerializer) × (new_event_serializer names config ≡ some p) × IsSerializer p
  unfolding new_event_serializer
  new_event_serializer-IsSerializer fits =
      let (locs, e, same, located) = locate_all_lem names env fits.known_env in
      let keys = serialize_strings-blocks names fits.short_names in
      let env_keys = serialize_strings-blocks env fits.short_env in
      let buffer = replicate {A = ℕ} (2 * max_record_bytes) 0 in
      (
        serializer (masked env hidden) lawful names env locs buffer,
        rw (e, keys, env_keys, map-mask_of config names) refl,
        (locs, buffer, refl, length-replicate {A = ℕ} (2 * max_record_bytes) 0, same, located),
      )

  abbrev pub IsServed : EventSerializer → LogRecord → Type 0
  IsServed p r =
      (stream : Bytes) × (p' : EventSerializer) × (r' : LogRecord) × (serialize_record p r
        ≡ some (stream, p', r'))
      × IsSerializer p'
      × (0 < length stream)
      × ((rest : Bytes)
          → read_event (stream ++ rest)
            ≡ some (shown_event (masked env hidden) lawful names env r, rest))

  -- A serializer returns a stream for a record with room enough, and stays one for the next record. A
  -- reader of the format reads the stream, whatever is behind, as the event of the record: its time,
  -- each field that is neither environment, hidden nor empty with its rewritten value, and the
  -- environment fields.
  pub serialize_record-IsServed :
      (p : EventSerializer) (r : LogRecord)
      → FitsSchema n names env
      → IsSerializer p
      → length r.fields ≡ n
      → event_room (masked env hidden) lawful names env r < 2 * max_record_bytes
      → IsServed p r
  serialize_record-IsServed p r fits (locs, buffer, e, size, same, located) en room =
      let (stream, b, u, runs, front, kept, some_, reads) =
        encode_record-Serialized (masked env hidden) lawful names env r locs buffer en
          fits.has_names fits.few_names fits.few_env same fits.short_names fits.short_env
          (located (values_in (masked env hidden) lawful names env r)
            (omega (arith, fits.has_names, length-take (length names) r.fields)))
          (omega (arith, size)) (omega (arith, size)) in
      (
        stream,
        serializer (masked env hidden) lawful names env locs b,
        record r { unescaped = u },
        ap (λ q. serialize_record q r) e
            ∙ serialize_record-front (serializer (masked env hidden) lawful names env locs buffer) r
                runs front,
        (locs, b, refl, kept ∙ size, same, located),
        some_,
        reads,
      )
