-- ===== src/Output/Event/Reserved.antt =====
-- The head of an event, and the length of its map, which is written behind the fields.
use slog_agent.Base.{
  ℕ, ◌+◌, ◌/◌, ◌%◌, ◌<◌, ◌≤◌, Bool, [], ◌∷◌, ◌++◌, Option, some, ltb, ltb→lt, if◌then◌else◌, length,
  length-append, length-take, length-drop, take-append-drop, append_assoc, take, drop, drop-append,
  Bytes, ◌≡◌, refl, ap, sym, ◌∙◌, arith, Bool-cases, inl, inr,
}
use slog_agent.Input.Parser.{LogRecord}
use slog_agent.Msgpack.Writer.{Writer, ◌>>◌, encode_array_len4, encode_ext_header8, bit_or}
use slog_agent.Msgpack.Laws.{
  Writes, >>-Writes, put-Writes, write4-Writes, moved, joined, same_place,
}
use slog_agent.Msgpack.RoundTrip.{
  IsMapLen, map_header4, map_header16, encode_map_len4-Writes, encode_map_len16-Writes,
  map_header4-IsMapLen, map_header16-IsMapLen,
}
use slog_agent.Output.Event.{Progress, encode_event_time, encode_map_len_within}
use slog_agent.Output.Event.Value.{Adds, at}
use slog_agent.Output.Event.Field.{at_same}

abbrev pub be4 : ℕ → Bytes
be4 n = n / 16777216 % 256 ∷ n / 65536 % 256 ∷ n / 256 % 256 ∷ n % 256 ∷ []

abbrev pub seconds_of : ℕ → ℕ
seconds_of t = t / 1000000000 % 4294967296

abbrev pub nanos_of : ℕ → ℕ
nanos_of t = t % 1000000000

abbrev pub head_bytes : ℕ → Bytes
head_bytes t = 146 ∷ 215 ∷ 0 ∷ (be4 (seconds_of t) ++ be4 (nanos_of t))

pub head-Writes : (t : ℕ) → Writes (encode_array_len4 2 >> encode_event_time t) 11 (head_bytes t)
unfolding encode_array_len4 encode_event_time encode_ext_header8 bit_or
head-Writes t = >>-Writes (put-Writes 146) (
    >>-Writes (>>-Writes (>>-Writes (put-Writes 215) (put-Writes 0)) (write4-Writes (seconds_of t)))
      (write4-Writes (nanos_of t)))

abbrev pub map_header : ℕ → ℕ → Bytes
map_header max n = if ltb max 16 then map_header4 n else map_header16 n

pub encode_map_len_within-Writes :
    (max n : ℕ)
    → n ≤ max
    → max < 65536
    → Writes (encode_map_len_within max n) (length (map_header max n)) (map_header max n)
      × IsMapLen (map_header max n) n
unfolding encode_map_len_within
encode_map_len_within-Writes max n le h = elim (Bool-cases (ltb max 16)) [
  | inl yes' ↦
      (let lt = ltb→lt max 16 yes' in
        rw yes' (encode_map_len4-Writes n (omega arith), map_header4-IsMapLen n (omega arith)))
  | inr no' ↦
      rw no' (encode_map_len16-Writes n (omega arith), map_header16-IsMapLen n (omega arith))
]

-- Fields behind a place that is reserved for a header of the same size, and the header then written
-- there.
pub reserved_lem :
    {f : Progress → Option Progress} {w : Writer} {r : LogRecord} {u : Bool} {need k : ℕ}
    {enc hdr : Bytes}
    → Adds f r u need enc k
    → Writes w (length hdr) hdr
    → (before old : Bytes) → length hdr + need ≤ length old
    → (let position = length before + length (hdr ++ enc) in
        (buffer : Bytes) × (f (at r (before ++ old) (length before + length hdr) 1)
          ≡ some (at (record r { unescaped = u }) buffer position (1 + k)))
        × (w buffer (length before)
            ≡ some (
              before ++ ((hdr ++ enc) ++ drop (length (hdr ++ enc)) old),
              length before + length hdr,
            )))
reserved_lem {f} {w} {r} {u} {need} {k} {enc} {hdr} a h before old room =
    let gap = take (length hdr) old in
    let mid = drop (length hdr) old in
    let rest = enc ++ drop (length enc) mid in
    let place : Bytes → ℕ → Option Progress = λ b p. f (at r b p 1) in
    let size : length gap ≡ length hdr = omega (arith, length-take (length hdr) old) in
    let filled = a.adds (before ++ gap) mid 1 (omega (arith, length-drop (length hdr) old)) in
    let header = h.writes before (gap ++ rest) (omega (arith, size, length-append gap rest)) in
    (
      before ++ (gap ++ rest),
      ap (λ s. place (before ++ s) (length before + length hdr))
            (sym (take-append-drop (length hdr) old))
          ∙ ap (λ n. place (before ++ (gap ++ mid)) (length before + n)) (sym size)
          ∙ moved place before gap mid
          ∙ filled
          ∙ at_same (append_assoc before gap rest)
              (omega (arith, size, length-append before gap, length-append hdr enc)) refl,
      header
          ∙ same_place
              (ap (λ s. before ++ (hdr ++ s))
                  (ap (λ n. drop n (gap ++ rest)) (sym size) ∙ drop-append gap rest)
                ∙ sym (append_assoc before hdr rest)
                ∙ joined before hdr enc old)
              refl,
    )
