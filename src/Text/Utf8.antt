-- ===== src/Text/Utf8.antt =====
-- util/utf8.go, and what it takes from util/strings.go and from the standard library's UTF-8.
use slog_agent.Base.{
  ℕ, zero, suc, ◌-◌, Bool, ◌&&◌, [], ◌∷◌, ◌++◌, ltb, leb, ◌==◌, if◌then◌else◌, length, drop, take,
  Bytes,
}

abbrev within : ℕ → ℕ → ℕ → Bool
within lo hi c = leb lo c && leb c hi

abbrev continuation : ℕ → Bool
continuation = within 0x80 0xBF

-- The range of the second byte behind a first byte of a longer sequence.
second_byte : ℕ → ℕ → Bool
second_byte a b =
    if a == 0xE0
    then within 0xA0 0xBF b
    else if a == 0xED
    then within 0x80 0x9F b
    else if a == 0xF0
    then within 0x90 0xBF b
    else if a == 0xF4
    then within 0x80 0x8F b
    else continuation b

-- The length of the sequence that starts a text, or 0 if that is invalid (`utf8.DecodeRune`).
unfoldable pub rune_length : Bytes → ℕ
unfolding second_byte
rune_length [] = 0
rune_length (a ∷ []) = if ltb a 0x80 then 1 else 0
rune_length (a ∷ b ∷ []) =
    if ltb a 0x80 then 1 else if within 0xC2 0xDF a && continuation b then 2 else 0
rune_length (a ∷ b ∷ c ∷ []) =
    if ltb a 0x80
    then 1
    else if within 0xC2 0xDF a && continuation b
    then 2
    else if within 0xE0 0xEF a && second_byte a b && continuation c
    then 3
    else 0
rune_length (a ∷ b ∷ c ∷ d ∷ s) =
    if ltb a 0x80
    then 1
    else if within 0xC2 0xDF a && continuation b
    then 2
    else if within 0xE0 0xEF a && second_byte a b && continuation c
    then 3
    else if within 0xF0 0xF4 a && second_byte a b && continuation c && continuation d
    then 4
    else 0

-- `strings.ToValidUTF8(s, "")`; the number counts the bytes left of the current sequence.
unfoldable pub to_valid_from : ℕ → Bytes → Bytes
to_valid_from k [] = []
to_valid_from (suc k) (c ∷ s) = c ∷ to_valid_from k s
to_valid_from zero (c ∷ s) = elim (rune_length (c ∷ s)) [
  | zero ↦ to_valid_from zero s
  | suc n ↦ c ∷ to_valid_from n s
]

unfoldable pub to_valid_utf8 : Bytes → Bytes
unfolding to_valid_from
to_valid_utf8 = to_valid_from 0

-- `findLastEndOfASCII`: one behind the last ASCII byte, or 0.
unfoldable pub find_last_end_of_ascii : Bytes → ℕ
find_last_end_of_ascii [] = 0
find_last_end_of_ascii (b ∷ s) = elim (find_last_end_of_ascii s) [
  | suc n ↦ suc (suc n)
  | zero ↦ if leb b 0x7F then 1 else 0
]

-- `OverwriteNTruncate`: `copy` writes as much of the tail as fits.
unfoldable pub overwrite_n_truncate : Bytes → ℕ → Bytes → Bytes
overwrite_n_truncate main start tail = take start main ++ take (length main - start) tail

unfoldable pub clean_utf8 : Bytes → Bytes
unfolding find_last_end_of_ascii overwrite_n_truncate to_valid_utf8
clean_utf8 [] = []
clean_utf8 (c ∷ s) =
    let end_pos = find_last_end_of_ascii (c ∷ s) in
    overwrite_n_truncate (c ∷ s) end_pos (to_valid_utf8 (drop end_pos (c ∷ s)))
