-- ===== src/Output/Event/RoundTrip.antt =====
-- The stream of a record, read back.
use slog_agent.Base.{
  ℕ, suc, ◌<◌, List, [], ◌∷◌, ◌++◌, some, length, append_assoc, Bytes, bytes_eq, ◌≡◌, refl, ap,
  arith,
}
use slog_agent.Msgpack.Writer.{encode_string4}
use slog_agent.Msgpack.Decode.{
  Event, expect, read_be, read_map, read_fields, read_event, read_string,
}
use slog_agent.Msgpack.Laws.{Writes, >>-Writes, copy_in-Writes}
use slog_agent.Msgpack.RoundTrip.{
  IsMapLen, IsString, encode_string_len4-Writes, header4, header4-IsString,
}
use slog_agent.Output.Event.{environment}
use slog_agent.Output.Event.Fields.{IsPairs}
use slog_agent.Output.Event.Reserved.{be4, seconds_of, nanos_of, head_bytes}

read_be-be4 : (n : ℕ) (rest : Bytes) → n < 4294967296 → read_be 4 0 (be4 n ++ rest) ≡ some (n, rest)
unfolding read_be
read_be-be4 n rest h = ap (λ k. some (k, rest)) (omega arith)

pub environment-Writes :
    Writes (encode_string4 environment) 12 (header4 11 ++ environment)
    × IsString (header4 11 ++ environment) environment
unfolding encode_string4
environment-Writes = (
  >>-Writes (encode_string_len4-Writes 11 (omega arith)) (copy_in-Writes environment),
  header4-IsString environment (omega arith),
)

read_event-steps :
    (s : Bytes) {time s1 s2 s3 s4 rest : Bytes} {a b : ℕ} {fields env : List (Bytes × Bytes)}
    → expect (146 ∷ 215 ∷ 0 ∷ []) s ≡ some time
    → read_be 4 0 time ≡ some (a, s1)
    → read_be 4 0 s1 ≡ some (b, s2)
    → read_fields s2 ≡ some (fields, s3)
    → read_string s3 ≡ some (environment, s4)
    → read_map s4 ≡ some (env, rest)
    → read_event s
      ≡ some (record { seconds = a; nanoseconds = b; fields = fields; environment = env }, rest)
unfolding read_event bytes_eq
read_event-steps s h1 h2 h3 h4 h5 h6 = rw (h1, h2, h3, h4, h5, h6) refl

read_fields-pairs :
    (mh fe s : Bytes) (fields : List (Bytes × Bytes))
    → IsMapLen mh (suc (length fields))
    → IsPairs fe fields
    → read_fields ((mh ++ fe) ++ s) ≡ some (fields, s)
unfolding read_fields
read_fields-pairs mh fe s fields m f = rw (append_assoc mh fe s, m (fe ++ s)) (f s)

read_map-pairs :
    (mh fe s : Bytes) (fields : List (Bytes × Bytes))
    → IsMapLen mh (length fields)
    → IsPairs fe fields
    → read_map ((mh ++ fe) ++ s) ≡ some (fields, s)
unfolding read_map
read_map-pairs mh fe s fields m f = rw (append_assoc mh fe s, m (fe ++ s)) (f s)

abbrev pub event_of : ℕ → List (Bytes × Bytes) → List (Bytes × Bytes) → Event
event_of t fields env = record {
  seconds = seconds_of t;
  nanoseconds = nanos_of t;
  fields = fields;
  environment = env;
}

-- What the parts of a stream read as.
pub read_event-parts :
    (t : ℕ) (mh fe mh' ee rest : Bytes) (fields env : List (Bytes × Bytes))
    → IsMapLen mh (suc (length fields))
    → IsPairs fe fields
    → IsMapLen mh' (length env)
    → IsPairs ee env
    → (let key = header4 11 ++ environment in
        read_event ((head_bytes t ++ (mh ++ fe)) ++ ((key ++ (mh' ++ ee)) ++ rest))
        ≡ some (event_of t fields env, rest))
unfolding expect
read_event-parts t mh fe mh' ee rest fields env m f m' e =
    let key = header4 11 ++ environment in
    let behind = (mh' ++ ee) ++ rest in
    let stream = (mh ++ fe) ++ (key ++ behind) in
    read_event-steps _ refl (read_be-be4 (seconds_of t) (be4 (nanos_of t) ++ stream) (omega arith))
      (read_be-be4 (nanos_of t) stream (omega arith))
      (read_fields-pairs mh fe (key ++ behind) fields m f) (environment-Writes.1 behind)
      (read_map-pairs mh' ee rest env m' e)
