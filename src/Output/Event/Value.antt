-- ===== src/Output/Event/Value.antt =====
-- One field of an event in the buffer: its key, and its value as it is or by a rewriter.
use slog_agent.Base.{
  ℕ, ◌+◌, ◌<◌, ◌≤◌, Bool, [], ◌++◌, Option, some, ltb, ltb→lt, if◌then◌else◌, length, take, drop,
  replicate, take-append, length-replicate, Bytes, ◌≡◌, ap, ◌∙◌, arith, Bool-cases, inl, inr,
}
use slog_agent.Input.Parser.{LogRecord}
use slog_agent.Transform.Run.{and_then}
use slog_agent.Msgpack.Writer.{encode_string4, encode_string16, encode_string32}
use slog_agent.Msgpack.Laws.{Writes, Writes-wider, >>-Writes, copy_in-Writes}
use slog_agent.Msgpack.RoundTrip.{
  IsString, header4, header16, header32, encode_string_len4-Writes, encode_string_len16-Writes,
  encode_string_len32-Writes, header4-IsString, header16-IsString, header32-IsString,
}
use slog_agent.Output.Event.{
  RewriterInterface, Progress, encode_string, serialize_string, encode_length_within,
}

-- A string as `encode_string` writes it.
abbrev pub string_block : Bytes → Bytes
string_block s =
    if ltb (length s) 16
    then header4 (length s) ++ s
    else if ltb (length s) 65536
    then header16 (length s) ++ s
    else header32 (length s) ++ s

pub encode_string-Writes :
    (s : Bytes)
    → length s < 4294967296
    → Writes (encode_string s) (5 + length s) (string_block s) × IsString (string_block s) s
unfolding encode_string encode_string4 encode_string16 encode_string32
encode_string-Writes s h = elim (Bool-cases (ltb (length s) 16)) [
  | inl small ↦
      (let lt = ltb→lt (length s) 16 small in
        rw small (
          Writes-wider (>>-Writes (encode_string_len4-Writes (length s) lt) (copy_in-Writes s))
              (omega arith),
          header4-IsString s lt,
        ))
  | inr small' ↦ elim (Bool-cases (ltb (length s) 65536)) [
    | inl middle ↦
        (let lt = ltb→lt (length s) 65536 middle in
          rw (small', middle)
            (
              Writes-wider (>>-Writes (encode_string_len16-Writes (length s) lt) (copy_in-Writes s))
                  (omega arith),
              header16-IsString s lt,
            ))
    | inr large ↦
        rw (small', large)
          (
            >>-Writes (encode_string_len32-Writes (length s) h) (copy_in-Writes s),
            header32-IsString s h,
          )
  ]
]

pub length-string_block :
    (s : Bytes) → length s < 4294967296 → length (string_block s) ≤ 5 + length s
length-string_block s h = (encode_string-Writes s h).0.fits

zero_plus : (n : ℕ) → 0 + n ≡ n
zero_plus n = omega arith

take-whole : (e rest : Bytes) → take (0 + length e) (e ++ rest) ≡ e
take-whole e rest = ap (λ n. take n (e ++ rest)) (zero_plus (length e)) ∙ take-append e rest

pub serialize_string-block :
    (key : Bytes) → length key < 4294967296 → serialize_string key ≡ some (string_block key)
unfolding serialize_string
serialize_string-block key h =
    let room = replicate (5 + length key) 0 in
    let runs =
      (encode_string-Writes key h).0.writes [] room
        (omega (arith, length-replicate {A = ℕ} (5 + length key) 0)) in
    ap (λ at. and_then at λ out. some (take (out.1) (out.0))) runs
    ∙ ap some (take-whole (string_block key) (drop (length (string_block key)) room))

-- The header of a length in the size that is chosen for `max`.
abbrev pub length_header : ℕ → ℕ → Bytes
length_header max n = if ltb max 65536 then header16 n else header32 n

pub encode_length_within-Writes :
    (max n : ℕ)
    → n ≤ max
    → max < 4294967296
    → Writes (encode_length_within max n) (length (length_header max max)) (length_header max n)
unfolding encode_length_within
encode_length_within-Writes max n le h = elim (Bool-cases (ltb max 65536)) [
  | inl yes' ↦ rw yes' (encode_string_len16-Writes n (omega (arith, le, ltb→lt max 65536 yes')))
  | inr no' ↦ rw no' (encode_string_len32-Writes n (omega arith))
]

pub length_header-IsString :
    (max : ℕ) (s : Bytes)
    → length s ≤ max
    → max < 4294967296
    → IsString (length_header max (length s) ++ s) s
length_header-IsString max s le h rest = elim (Bool-cases (ltb max 65536)) [
  | inl yes' ↦ rw yes' (header16-IsString s (omega (arith, le, ltb→lt max 65536 yes')) rest)
  | inr no' ↦ rw no' (header32-IsString s (omega arith) rest)
]

abbrev pub at : LogRecord → Bytes → ℕ → ℕ → Progress
at r buffer position size = record {
  record_ = r;
  buffer = buffer;
  position = position;
  root_map_size = size;
}

-- A step of the loop that puts `enc` into the buffer and counts `k` entries, with `flag` in the
-- record behind it.
pub record Adds (f : Progress → Option Progress) (r : LogRecord) (flag : Bool) (need : ℕ)
    (enc : Bytes) (k : ℕ) : Type 0 where
  pub fits : length enc ≤ need
  pub adds :
      (before old : Bytes) (size : ℕ)
      → need ≤ length old
      → f (at r (before ++ old) (length before) size)
        ≡ some (
            at
              (record r { unescaped = flag })
              (before ++ (enc ++ drop (length enc) old))
              (length before + length enc)
              (size + k))

-- A rewriter that returns for records of `n` fields, and writes at most what it announced, of any
-- buffer that has room for that, and only there.
pub record LawfulRewriter (n : ℕ) : Type 0 where
  pub interface : RewriterInterface
  pub limit : Bytes → LogRecord → ℕ
  pub text : Bytes → LogRecord → Bytes × Bool
  pub announces :
      (value : Bytes) (r : LogRecord)
      → length r.fields ≡ n
      → interface.max_field_length value r ≡ some (limit value r)
  pub within :
      (value : Bytes) (r : LogRecord)
      → length r.fields ≡ n
      → length ((text value r).0) ≤ limit value r
  pub writes :
      (value : Bytes) (r : LogRecord)
      → length r.fields ≡ n
      → (before old : Bytes) → limit value r ≤ length old
      → (let out = (text value r).0 in
          interface.write_field_body value r (before ++ old) (length before)
          ≡ some (before ++ (out ++ drop (length out) old), length out, (text value r).1))
