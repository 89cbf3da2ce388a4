-- ===== src/Msgpack/RoundTrip.antt =====
-- Strings and lengths of maps that are written and read back.
use slog_agent.Base.{
  ℕ, ◌+◌, ◌-◌, ◌/◌, ◌%◌, ◌<◌, Bool, [], ◌∷◌, ◌++◌, some, ◌≡◌, refl, ap, ◌∙◌, subst, arith, ◌==◌,
  length, length-append, take-append, drop-append, Bytes, ==_iff,
}
use slog_agent.Msgpack.Writer.{
  ◌>>◌, put, write2, write4, bit_or, encode_string_len4, encode_string_len16, encode_string_len32,
  encode_map_len4, encode_map_len16,
}
use slog_agent.Msgpack.Decode.{read_be, split_at, read_string, read_map_len}
use slog_agent.Msgpack.Laws.{Writes, put-Writes, >>-Writes, write2-Writes, write4-Writes, below}

abbrev ors : ℕ → ℕ → Bool
ors high n = bit_or 8 high (n % 256) == high + n

or_fixed :
    (n : ℕ) → n < 16 → (bit_or 8 160 (n % 256) ≡ 160 + n) × (bit_or 8 128 (n % 256) ≡ 128 + n)
unfolding bit_or
or_fixed n h = (
  (==_iff (bit_or 8 160 (n % 256)) (160 + n)).0 (below 16 (ors 160) n refl h),
  (==_iff (bit_or 8 128 (n % 256)) (128 + n)).0 (below 16 (ors 128) n refl h),
)

-- The reader takes these bytes for the string, whatever is behind.
abbrev pub IsString : Bytes → Bytes → Type 0
IsString enc s = (rest : Bytes) → read_string (enc ++ rest) ≡ some (s, rest)

split_at-append : (s rest : Bytes) → split_at (length s) (s ++ rest) ≡ some (s, rest)
unfolding split_at
split_at-append s rest =
    ground (arith, length-append s rest, take-append s rest, drop-append s rest)

split_at-eq : (n : ℕ) (s rest : Bytes) → n ≡ length s → split_at n (s ++ rest) ≡ some (s, rest)
split_at-eq n s rest e = ap (λ k. split_at k (s ++ rest)) e ∙ split_at-append s rest

-- The headers of a string.
abbrev pub header4 : ℕ → Bytes
header4 n = (160 + n) ∷ []

abbrev pub header16 : ℕ → Bytes
header16 n = 218 ∷ n / 256 % 256 ∷ n % 256 ∷ []

abbrev pub header32 : ℕ → Bytes
header32 n = 219 ∷ n / 16777216 % 256 ∷ n / 65536 % 256 ∷ n / 256 % 256 ∷ n % 256 ∷ []

pub encode_string_len4-Writes : (n : ℕ) → n < 16 → Writes (encode_string_len4 n) 1 (header4 n)
unfolding encode_string_len4
encode_string_len4-Writes n h = rw (or_fixed n h).0 (put-Writes (160 + n))

pub encode_string_len16-Writes : (n : ℕ) → n < 65536 → Writes (encode_string_len16 n) 3 (header16 n)
unfolding encode_string_len16
encode_string_len16-Writes n h =
    subst (λ k. Writes (put 218 >> write2 k) 3 (header16 n)) (omega arith)
      (>>-Writes (put-Writes 218) (write2-Writes n))

pub encode_string_len32-Writes :
    (n : ℕ) → n < 4294967296 → Writes (encode_string_len32 n) 5 (header32 n)
unfolding encode_string_len32
encode_string_len32-Writes n h =
    subst (λ k. Writes (put 219 >> write4 k) 5 (header32 n)) (omega arith)
      (>>-Writes (put-Writes 219) (write4-Writes n))

pub header4-IsString : (s : Bytes) → length s < 16 → IsString (header4 (length s) ++ s) s
unfolding read_string
header4-IsString s h rest = ground (arith, split_at-eq (160 + length s - 160) s rest)

pub header16-IsString : (s : Bytes) → length s < 65536 → IsString (header16 (length s) ++ s) s
unfolding read_string read_be
header16-IsString s h rest = split_at-eq _ s rest (omega arith)

pub header32-IsString : (s : Bytes) → length s < 4294967296 → IsString (header32 (length s) ++ s) s
unfolding read_string read_be
header32-IsString s h rest = split_at-eq _ s rest (omega arith)

abbrev pub map_header4 : ℕ → Bytes
map_header4 n = (128 + n) ∷ []

abbrev pub map_header16 : ℕ → Bytes
map_header16 n = 222 ∷ n / 256 % 256 ∷ n % 256 ∷ []

abbrev pub IsMapLen : Bytes → ℕ → Type 0
IsMapLen enc n = (rest : Bytes) → read_map_len (enc ++ rest) ≡ some (n, rest)

pub encode_map_len4-Writes : (n : ℕ) → n < 16 → Writes (encode_map_len4 n) 1 (map_header4 n)
unfolding encode_map_len4
encode_map_len4-Writes n h = rw (or_fixed n h).1 (put-Writes (128 + n))

pub encode_map_len16-Writes : (n : ℕ) → n < 65536 → Writes (encode_map_len16 n) 3 (map_header16 n)
unfolding encode_map_len16
encode_map_len16-Writes n h =
    subst (λ k. Writes (put 222 >> write2 k) 3 (map_header16 n)) (omega arith)
      (>>-Writes (put-Writes 222) (write2-Writes n))

pub map_header4-IsMapLen : (n : ℕ) → n < 16 → IsMapLen (map_header4 n) n
unfolding read_map_len
map_header4-IsMapLen n h rest = ground arith

pub map_header16-IsMapLen : (n : ℕ) → n < 65536 → IsMapLen (map_header16 n) n
unfolding read_map_len read_be
map_header16-IsMapLen n h rest = ap (λ k. some (k, rest)) (omega arith)
