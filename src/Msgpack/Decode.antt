-- ===== src/Msgpack/Decode.antt =====
-- A reader of the MessagePack format, written from the format: what a receiver makes of the bytes.
use slog_agent.Base.{
  ℕ, zero, suc, ◌+◌, ◌-◌, ◌*◌, ◌&&◌, List, [], ◌∷◌, Option, none, some, ltb, leb, ◌==◌,
  if◌then◌else◌, length, take, drop, Bytes, bytes_eq, codes,
}
use slog_agent.Transform.Run.{and_then}

-- A number of so many bytes, the highest first.
unfoldable pub read_be : ℕ → ℕ → Bytes → Option (ℕ × Bytes)
read_be zero acc s = some (acc, s)
read_be (suc n) acc [] = none
read_be (suc n) acc (b ∷ s) = read_be n (acc * 256 + b) s

unfoldable pub split_at : ℕ → Bytes → Option (Bytes × Bytes)
split_at n s = if ltb (length s) n then none else some (take n s, drop n s)

abbrev sized : Option (ℕ × Bytes) → Option (Bytes × Bytes)
sized none = none
sized (some (n, s)) = split_at n s

unfoldable pub read_string : Bytes → Option (Bytes × Bytes)
unfolding read_be split_at
read_string [] = none
read_string (c ∷ s) =
    if leb 160 c && ltb c 192
    then split_at (c - 160) s
    else if c == 217
    then sized (read_be 1 0 s)
    else if c == 218
    then sized (read_be 2 0 s)
    else if c == 219
    then sized (read_be 4 0 s)
    else none

unfoldable pub read_map_len : Bytes → Option (ℕ × Bytes)
unfolding read_be
read_map_len [] = none
read_map_len (c ∷ s) =
    if leb 128 c && ltb c 144
    then some (c - 128, s)
    else if c == 222
    then read_be 2 0 s
    else if c == 223
    then read_be 4 0 s
    else none

-- So many pairs of strings.
unfoldable pub read_pairs : ℕ → Bytes → Option (List (Bytes × Bytes) × Bytes)
unfolding read_string
read_pairs zero s = some ([], s)
read_pairs (suc n) s = and_then (read_string s) λ key.
    and_then (read_string (key.1))
      λ value. and_then (read_pairs n (value.1)) λ pairs. some ((key.0, value.0) ∷ pairs.0, pairs.1)

-- An event of fluentd's forward format: [time, fields], the time as EventTime, an extension of type 0
-- with seconds and nanoseconds, and among the fields at last a map `environment`.
pub record Event : Type 0 where
  pub seconds : ℕ
  pub nanoseconds : ℕ
  pub fields : List (Bytes × Bytes)
  pub environment : List (Bytes × Bytes)

unfoldable pub expect : Bytes → Bytes → Option Bytes
expect [] s = some s
expect (b ∷ bs) [] = none
expect (b ∷ bs) (c ∷ s) = if b == c then expect bs s else none

unfoldable pub read_map : Bytes → Option (List (Bytes × Bytes) × Bytes)
unfolding read_map_len read_pairs
read_map s = and_then (read_map_len s) λ n. read_pairs (n.0) (n.1)

-- The fields are the pairs in front of the last.
unfoldable pub read_fields : Bytes → Option (List (Bytes × Bytes) × Bytes)
unfolding read_map_len read_pairs
read_fields s =
    and_then (read_map_len s) λ n. elim (n.0) [ zero ↦ none | suc k ↦ read_pairs k (n.1) ]

unfoldable pub read_event : Bytes → Option (Event × Bytes)
unfolding expect read_be read_fields read_string read_map
read_event s = and_then (expect (146 ∷ 215 ∷ 0 ∷ []) s) λ time.
    and_then (read_be 4 0 time) λ seconds. and_then (read_be 4 0 (seconds.1)) λ nanoseconds.
      and_then (read_fields (nanoseconds.1)) λ fields. and_then (read_string (fields.1)) λ key.
        if bytes_eq (key.0) (codes "environment")
        then (and_then (read_map (key.1)) λ env. some (
          record {
            seconds = seconds.0;
            nanoseconds = nanoseconds.0;
            fields = fields.0;
            environment = env.0;
          },
          env.1,
        ))
        else none
