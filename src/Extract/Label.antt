-- ===== src/Extract/Label.antt =====
-- transform/textractspecial/stringextractor.go: the extraction of a label from a text.
use slog_agent.Base.{
  ℕ, zero, suc, ◌+◌, ◌-◌, Bool, true, false, not, [], ◌∷◌, Option, none, some, ltb, ◌==◌,
  if◌then◌else◌, length, take, drop, Bytes, has_prefix,
}
use slog_agent.Transform.Matcher.{has_suffix}
use slog_agent.Extract.Pattern.{CharTable, from_start, from_end, StringExtractor}

abbrev next_index : Option ℕ → Option ℕ
next_index none = none
next_index (some i) = some (suc i)

-- `strings.Index`
unfoldable pub index_of : Bytes → Bytes → Option ℕ
index_of [] sub = if has_prefix [] sub then some 0 else none
index_of (c ∷ s) sub =
    let behind = next_index (index_of s sub) in if has_prefix (c ∷ s) sub then some 0 else behind

abbrev or_index : Option ℕ → Option ℕ → Option ℕ
or_index none other = other
or_index (some i) other = some i

-- `strings.LastIndex`
unfoldable pub last_index_of : Bytes → Bytes → Option ℕ
last_index_of [] sub = if has_prefix [] sub then some 0 else none
last_index_of (c ∷ s) sub =
    let behind = next_index (last_index_of s sub) in
    or_index behind (if has_prefix (c ∷ s) sub then some 0 else none)

-- `matchValidCharsFromStart`. An index into a nil table panics, which is `none`.
unfoldable pub match_from_start : Bytes → Option CharTable → Option ℕ
match_from_start [] table = some 0
match_from_start (c ∷ s) none = none
match_from_start (c ∷ s) (some valid) =
    let behind = next_index (match_from_start s (some valid)) in if valid c then behind else some 0

-- The loop of `matchValidCharsFromEnd` over the reversed text: how many valid bytes end it.
unfoldable pub count_valid_end : CharTable → Bytes → ℕ
count_valid_end valid [] = 0
count_valid_end valid (c ∷ s) =
    let n = count_valid_end valid s in if n == length s then (if valid c then suc n else n) else n

-- `matchValidCharsFromEnd`: the beginning of the valid bytes at the end.
unfoldable pub match_from_end : Bytes → Option CharTable → Option ℕ
unfolding count_valid_end
match_from_end [] table = some 0
match_from_end (c ∷ s) none = none
match_from_end (c ∷ s) (some valid) = some (length (c ∷ s) - count_valid_end valid (c ∷ s))

-- The two loops of `trimControlCharsAndSpaces`.
unfoldable pub trim_start : Bytes → Bytes
trim_start [] = []
trim_start (c ∷ s) = let behind = trim_start s in if ltb b' ' c then c ∷ s else behind

unfoldable pub trim_end : Bytes → Bytes
trim_end [] = []
trim_end (c ∷ s) = elim (trim_end s) [ [] ↦ if ltb b' ' c then c ∷ [] else [] | d ∷ t ↦ c ∷ d ∷ t ]

unfoldable pub trim_control_chars_and_spaces : Bytes → Bytes
unfolding trim_start trim_end
trim_control_chars_and_spaces s = trim_end (trim_start s)

-- A label and what is left of the text; `none` for a panic.
abbrev pub Extraction : Type 0
Extraction = Option (Bytes × Bytes)

abbrev pub first_is_invalid : Option CharTable → Bytes → Bool
first_is_invalid none s = false
first_is_invalid (some valid) [] = false
first_is_invalid (some valid) (c ∷ s) = not (valid c)

abbrev pub last_is_invalid : Option CharTable → Bytes → Bool
last_is_invalid none s = false
last_is_invalid (some valid) [] = false
last_is_invalid (some valid) (c ∷ []) = not (valid c)
last_is_invalid (some valid) (c ∷ d ∷ s) = last_is_invalid (some valid) (d ∷ s)

abbrev pub is_some_at : ℕ → Option ℕ → Bool
is_some_at n none = false
is_some_at n (some k) = k == n

-- `validChars != nil && ... != ...` is false: no table, or the whole tag matches.
abbrev pub passes : Option CharTable → ℕ → Option ℕ → Bool
passes none n found = true
passes (some valid) n found = is_some_at n found

-- The text behind the left boundary, at `s`: a tag up to the right boundary.
abbrev pub start_bounded : Bytes → Bytes → Bytes → Option CharTable → Option ℕ → Extraction
start_bounded text s right table none = some ([], text)
start_bounded text s right table (some i) =
    let tag = take i s in
    if passes table (length tag) (match_from_start tag table)
    then some (trim_control_chars_and_spaces tag, drop (i + length right) s)
    else some ([], text)

-- A tag of valid bytes, without a right boundary.
abbrev pub start_open : Bytes → Bytes → Option ℕ → Extraction
start_open text s none = none
start_open text s (some zero) = some ([], text)
start_open text s (some (suc n)) =
    some (trim_control_chars_and_spaces (take (suc n) s), drop (suc n) s)

-- `s[:maxRange]` for a longer text.
abbrev pub limit_start : ℕ → Bytes → Bytes
limit_start max_range s = if ltb max_range (length s) then take max_range s else s

abbrev pub at_start : Bytes → Bytes → Bytes → ℕ → Option CharTable → Extraction
at_start text s right max_range table =
    if first_is_invalid table s
    then some ([], text)
    else if ltb 0 (length right)
    then start_bounded text s right table (index_of (limit_start max_range s) right)
    else start_open text s (match_from_start (limit_start max_range s) table)

unfoldable pub extract_label_at_start : Bytes → Bytes → Bytes → ℕ → Option CharTable → Extraction
unfolding index_of match_from_start trim_control_chars_and_spaces
extract_label_at_start text left right max_range table =
    if has_prefix text left
    then at_start text (drop (length left) text) right max_range table
    else some ([], text)

-- The offset at which the searched end of a longer text begins.
abbrev pub offset_end : ℕ → Bytes → ℕ
offset_end max_range s = if ltb max_range (length s) then length s - max_range else 0

abbrev pub end_bounded : Bytes → Bytes → Bytes → ℕ → Option CharTable → Option ℕ → Extraction
end_bounded text s left off table none = some ([], text)
end_bounded text s left off table (some i) =
    let tag = drop (i + off + length left) s in
    if passes table 0 (match_from_end tag table)
    then some (trim_control_chars_and_spaces tag, take (i + off) s)
    else some ([], text)

abbrev pub end_open : Bytes → Bytes → ℕ → Option ℕ → Extraction
end_open text s off none = none
end_open text s off (some k) =
    if off + k == length s
    then some ([], text)
    else some (trim_control_chars_and_spaces (drop (off + k) s), take (off + k) s)

abbrev pub at_end : Bytes → Bytes → Bytes → ℕ → Option CharTable → Extraction
at_end text s left max_range table =
    let off = offset_end max_range s in
    if last_is_invalid table s
    then some ([], text)
    else if ltb 0 (length left)
    then end_bounded text s left off table (last_index_of (drop off s) left)
    else end_open text s off (match_from_end (drop off s) table)

unfoldable pub extract_label_at_end : Bytes → Bytes → Bytes → ℕ → Option CharTable → Extraction
unfolding last_index_of match_from_end trim_control_chars_and_spaces has_suffix
extract_label_at_end text left right max_range table =
    if has_suffix text right
    then at_end text (take (length text - length right) text) left max_range table
    else some ([], text)

-- `Extract`
unfoldable pub extract : StringExtractor → Bytes → Extraction
unfolding extract_label_at_start extract_label_at_end
extract ex text = elim ex.position [
  | from_start ↦
      extract_label_at_start text ex.left_bound ex.right_bound ex.max_range ex.valid_chars
  | from_end ↦ extract_label_at_end text ex.left_bound ex.right_bound ex.max_range ex.valid_chars
]
