-- ===== src/Output/Event.antt =====
-- output/fluentdforward/eventserializer.go and eventtime.go. `none` stands for a panic, and for the
-- error of the constructor. A timestamp is in nanoseconds from 1970.
pub mod Value
pub mod Field
pub mod Fields
pub mod Environment
pub mod Reserved
pub mod RoundTrip
pub mod Stream
pub mod Serialized
pub mod Served
pub mod Rewriters
mod Tests
use slog_agent.Base.{
  ℕ, zero, suc, ◌+◌, ◌-◌, ◌*◌, ◌/◌, ◌%◌, ◌^◌, Bool, true, false, ◌||◌, List, [], ◌∷◌, ◌++◌, Option,
  none, some, map, ltb, leb, ◌==◌, if◌then◌else◌, length, take, replicate, Bytes, bytes_eq, codes,
}
use slog_agent.Input.Parser.{LogRecord, max_record_bytes}
use slog_agent.Transform.Matcher.{get_field}
use slog_agent.Transform.Run.{and_then}
use slog_agent.Msgpack.Writer.{
  Written, Writer, ◌>>◌, copy_in, write4, encode_array_len4, encode_map_len4, encode_map_len16,
  encode_string_len16, encode_string_len32, encode_string4, encode_string16, encode_string32,
  encode_ext_header8, reserve_len4, reserve_len16,
}

-- The interface `base.LogRewriter`. `write_field_body` writes at a position of the buffer; it returns
-- the buffer, the length that it wrote and the flag `Unescaped` of the record behind it.
pub record RewriterInterface : Type 0 where
  pub max_field_length : Bytes → LogRecord → Option ℕ
  pub write_field_body : Bytes → LogRecord → Bytes → ℕ → Option (Bytes × ℕ × Bool)

pub record EventSerializer : Type 0 where
  pub field_masks : List Bool
  pub env_field_locators : List ℕ
  pub field_rewriters : List (Option RewriterInterface)
  pub serialized_field_keys : List Bytes
  pub serialized_env_field_keys : List Bytes
  pub buffer : Bytes

unfoldable pub encode_event_time : ℕ → Writer
unfolding encode_ext_header8 write4
encode_event_time t =
    encode_ext_header8 0 >> write4 (t / 1000000000 % 4294967296) >> write4 (t % 1000000000)

-- A string in the shortest form that the code uses.
unfoldable pub encode_string : Bytes → Writer
unfolding encode_string4 encode_string16 encode_string32
encode_string s =
    if ltb (length s) 16
    then encode_string4 s
    else if ltb (length s) 65536
    then encode_string16 s
    else encode_string32 s

-- One of `serializeStrings`, in a buffer of its own.
unfoldable pub serialize_string : Bytes → Option Bytes
unfolding encode_string
serialize_string key =
    and_then (encode_string key (replicate (5 + length key) 0) 0) λ at. some (take (at.1) (at.0))

unfoldable pub serialize_strings : List Bytes → Option (List Bytes)
unfolding serialize_string
serialize_strings [] = some []
serialize_strings (key ∷ keys) =
    and_then (serialize_string key)
      λ block. and_then (serialize_strings keys) λ blocks. some (block ∷ blocks)

-- The length of a string of at most `max` bytes, and of a map with at most `max` entries.
unfoldable pub encode_length_within : ℕ → ℕ → Writer
unfolding encode_string_len16 encode_string_len32
encode_length_within max n = if ltb max 65536 then encode_string_len16 n else encode_string_len32 n

unfoldable pub encode_map_len_within : ℕ → ℕ → Writer
unfolding encode_map_len4 encode_map_len16
encode_map_len_within max n = if ltb max 16 then encode_map_len4 n else encode_map_len16 n

-- What the loop over the fields changes.
pub record Progress : Type 0 where
  pub record_ : LogRecord
  pub buffer : Bytes
  pub position : ℕ
  pub root_map_size : ℕ

-- The length that is reserved is written again when the body is of another length.
unfoldable pub encode_rewritten : RewriterInterface → Bytes → Progress → Option Progress
unfolding encode_length_within
encode_rewritten r value s = and_then (r.max_field_length value s.record_) λ max.
    and_then (encode_length_within max max s.buffer s.position) λ at.
      and_then (r.write_field_body value s.record_ (at.0) (at.1)) λ out.
        and_then
          (if out.1 == max
            then some (out.0, at.1)
            else encode_length_within max (out.1) (out.0) s.position)
          λ patched. some (record s {
            record_ = record s.record_ { unescaped = out.2 };
            buffer = patched.0;
            position = at.1 + out.1;
            root_map_size = s.root_map_size + 1;
          })

unfoldable pub encode_value : Option RewriterInterface → Bytes → Progress → Option Progress
unfolding encode_rewritten encode_string
encode_value (some r) value s = encode_rewritten r value s
encode_value none value s =
    and_then (encode_string value s.buffer s.position)
      λ at. some (record s { buffer = at.0; position = at.1; root_map_size = s.root_map_size + 1 })

unfoldable pub encode_field : Bytes → Option RewriterInterface → Bytes → Progress → Option Progress
unfolding encode_value copy_in
encode_field key rewriter value s =
    and_then (copy_in key s.buffer s.position)
      λ at. encode_value rewriter value (record s { buffer = at.0; position = at.1 })

-- The loop over the fields; the lists have the length of the masks.
unfoldable pub encode_fields :
    List Bool
    → List Bytes
    → List (Option RewriterInterface)
    → List Bytes
    → Progress
    → Option Progress
unfolding encode_field
encode_fields (mask ∷ masks) (key ∷ keys) (r ∷ rs) (value ∷ values) s =
    let behind = encode_fields masks keys rs values in
    if mask || length value == 0 then behind s else and_then (encode_field key r value s) behind
encode_fields _ _ _ [] s = some s
encode_fields _ _ _ (value ∷ values) s = none

unfoldable pub encode_env : List ℕ → List Bytes → List Bytes → Writer
unfolding encode_string copy_in
encode_env [] keys fields buffer position = some (buffer, position)
encode_env (loc ∷ locs) [] fields buffer position = none
encode_env (loc ∷ locs) (key ∷ keys) fields buffer position =
    and_then (get_field loc fields)
      λ value. (copy_in key >> encode_string value >> encode_env locs keys fields) buffer position

abbrev pub environment : Bytes
environment = codes "environment"

-- `encodeRecord`: the buffer, the end position, which is 0 for a record that fills the buffer, and the
-- record with its flag.
unfoldable pub encode_record : EventSerializer → LogRecord → Option (Bytes × ℕ × LogRecord)
unfolding encode_array_len4 encode_event_time encode_fields encode_map_len_within encode_env
    encode_string4
encode_record p r =
    if ltb (length r.fields) (length p.field_masks)
    then none
    else (let fields = take (length p.field_masks) r.fields in
        let locs = p.env_field_locators in
        and_then ((encode_array_len4 2 >> encode_event_time r.timestamp) p.buffer 0) λ head.
          let start =
            if ltb (length fields + 1) 16 then reserve_len4 (head.1) else reserve_len16 (head.1) in
          and_then
            (encode_fields p.field_masks p.serialized_field_keys p.field_rewriters fields
              (record { record_ = r; buffer = head.0; position = start; root_map_size = 1 }))
            λ s.
              and_then (encode_map_len_within (length fields + 1) s.root_map_size s.buffer (head.1))
                λ patched.
                  and_then
                    ((encode_string4 environment
                        >> encode_map_len_within (length locs) (length locs)
                        >> encode_env locs p.serialized_env_field_keys fields)
                      (patched.0) s.position)
                    λ out. some (out.0, if out.1 == length p.buffer then 0 else out.1, s.record_))

-- `SerializeRecord`: the stream, and the serializer and the record behind it.
unfoldable pub serialize_record :
    EventSerializer → LogRecord → Option (Bytes × EventSerializer × LogRecord)
unfolding encode_record
serialize_record p r =
    and_then (encode_record p r)
      λ out. some (take (out.1) (out.0), record p { buffer = out.0 }, out.2)

-- `CreateFieldLocator`
unfoldable pub locate : List Bytes → Bytes → Option ℕ
locate [] name = none
locate (n ∷ names) name =
    let behind = locate names name in
    if bytes_eq n name then some 0 else and_then behind λ i. some (suc i)

unfoldable pub locate_all : List Bytes → List Bytes → Option (List ℕ)
unfolding locate
locate_all names [] = some []
locate_all names (name ∷ more) =
    and_then (locate names name) λ loc. and_then (locate_all names more) λ locs. some (loc ∷ locs)

-- `slices.Index(names, name) != -1`
unfoldable pub listed : List Bytes → Bytes → Bool
listed [] name = false
listed (n ∷ names) name = bytes_eq n name || listed names name

-- The part of the configuration that the serializer reads; `rewriter_of` gives the first of the
-- rewriters that are configured for a field.
pub record SerializationConfig : Type 0 where
  pub environment_fields : List Bytes
  pub hidden_fields : List Bytes
  pub rewriter_of : Bytes → Option RewriterInterface

unfoldable pub mask_of : SerializationConfig → Bytes → Bool
unfolding listed
mask_of config name =
    if listed config.environment_fields name then true else listed config.hidden_fields name

unfoldable pub new_event_serializer : List Bytes → SerializationConfig → Option EventSerializer
unfolding locate_all mask_of serialize_strings
new_event_serializer names config = and_then (locate_all names config.environment_fields) λ locs.
    and_then (serialize_strings names) λ keys.
      and_then (serialize_strings config.environment_fields) λ env_keys. some (record {
        field_masks = map (mask_of config) names;
        env_field_locators = locs;
        field_rewriters = map config.rewriter_of names;
        serialized_field_keys = keys;
        serialized_env_field_keys = env_keys;
        buffer = replicate (2 * max_record_bytes) 0;
      })
