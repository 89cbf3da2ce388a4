-- ===== src/Extract/Pattern.antt =====
-- transform/textractspecial/stringextractor.go: the reading of a pattern.
use slog_agent.Base.{
  ℕ, suc, ◌+◌, ◌-◌, Bool, true, false, not, ◌&&◌, ◌||◌, [], ◌∷◌, Option, none, some, ltb, leb, ◌==◌,
  if◌then◌else◌, length, get_or, take, drop, slice, Bytes, bytes_eq, codes,
}
use slog_agent.Text.Unescape.{Unescaper, new_unescaper, run}

abbrev raise : ℕ → Option ℕ → Option ℕ
raise k none = none
raise k (some n) = some (k + n)

-- `FindFirstUnescaped` of util/stringunescape, for a target that is escapable.
unfoldable pub find_first_unescaped : Unescaper → Bytes → ℕ → Option ℕ
find_first_unescaped e [] target = none
find_first_unescaped e (c ∷ []) target =
    if c == e.escape_char then none else if c == target then some 0 else none
find_first_unescaped e (c ∷ d ∷ s) target =
    let behind_escape = raise 2 (find_first_unescaped e s target) in
    let behind = raise 1 (find_first_unescaped e (d ∷ s) target) in
    if c == e.escape_char then behind_escape else if c == target then some 0 else behind

unfoldable pub pattern_unescaper : Unescaper
unfolding new_unescaper
pattern_unescaper = new_unescaper b'\\' ((b'[', b'[') ∷ (b']', b']') ∷ (b'*', b'*') ∷ [])

-- The left boundary, the wildcard and the right boundary.
pub record Parts : Type 0 where
  pub left : Bytes
  pub wildcard : Bytes
  pub right : Bytes

-- Errors are told by what they are about.
pub data PatternError : Type 0 where
  bracket_not_closed no_wildcard empty_expression double_hyphen invalid_wildcard : PatternError

-- A result; `loops` where the code does not return.
pub data Checked {ℓ} (A : Type ℓ) : Type ℓ where
  ok : A → Checked A
  bad : PatternError → Checked A
  loops : Checked A

abbrev pub and_checked {ℓ κ} : {A : Type ℓ} {B : Type κ} → Checked A → (A → Checked B) → Checked B
and_checked (ok a) k = k a
and_checked (bad e) k = bad e
and_checked loops k = loops

-- The pattern from its opening bracket at `start`, with what closes it, counted from there.
abbrev split_bracket : Bytes → ℕ → Option ℕ → Checked Parts
split_bracket pattern start none = bad bracket_not_closed
split_bracket pattern start (some n) = ok (record {
  left = run pattern_unescaper (take start pattern);
  wildcard = slice pattern start (n + start + 2);
  right = run pattern_unescaper (drop (n + start + 2) pattern);
})

abbrev split_brackets : Bytes → Option ℕ → Checked Parts
split_brackets pattern none = bad no_wildcard
split_brackets pattern (some start) =
    split_bracket pattern start
      (find_first_unescaped pattern_unescaper (drop (suc start) pattern) b']')

abbrev split_wildcard : Bytes → Option ℕ → Checked Parts
split_wildcard pattern none =
    split_brackets pattern (find_first_unescaped pattern_unescaper pattern b'[')
split_wildcard pattern (some i) = ok (record {
  left = run pattern_unescaper (take i pattern);
  wildcard = codes "*";
  right = run pattern_unescaper (drop (suc i) pattern);
})

unfoldable pub split_pattern : Bytes → Checked Parts
unfolding find_first_unescaped
split_pattern pattern = split_wildcard pattern (find_first_unescaped pattern_unescaper pattern b'*')

-- A table of valid bytes.
abbrev pub CharTable : Type 0
CharTable = ℕ → Bool

abbrev pub mark : ℕ → Bool → CharTable → CharTable
mark c listed table x = if x == c then listed else table x

abbrev pub mark_range : ℕ → ℕ → Bool → CharTable → CharTable
mark_range lo hi listed table x = if leb lo x && leb x hi then listed else table x

-- The loop of `fillValidCharsByRangeExpression` at index `i`, with the two bytes before it. The byte
-- that counts a range up to 255 wraps and never passes it.
unfoldable pub fill_loop : Bool → ℕ → ℕ → ℕ → Bool → Bytes → CharTable → Checked CharTable
fill_loop listed i before2 before started [] table = ok table
fill_loop listed i before2 before true (c ∷ expr) table =
    let rest = fill_loop listed (suc i) before c false expr (mark_range before2 c listed table) in
    if c == b'-' then bad double_hyphen else if c == 255 then loops else rest
fill_loop listed i before2 before false (c ∷ expr) table =
    let range = fill_loop listed (suc i) before c true expr table in
    let single = fill_loop listed (suc i) before c false expr (mark c listed table) in
    if c == b'-' && ltb 0 i && ltb 0 (length expr) then range else single

unfoldable pub fill_unescaped : Bytes → Checked CharTable
unfolding fill_loop
fill_unescaped [] = bad empty_expression
fill_unescaped (c ∷ expr) =
    if c == b'^'
    then fill_loop false 0 0 0 false expr (λ x. true)
    else fill_loop true 0 0 0 false (c ∷ expr) (λ x. false)

-- `fillValidCharsByRangeExpression` on an expression in brackets.
unfoldable pub fill_valid_chars : Bytes → Checked CharTable
unfolding fill_unescaped
fill_valid_chars expression =
    if length expression == 0
    then ok (λ x. false)
    else fill_unescaped (run pattern_unescaper (slice expression 1 (length expression - 1)))

pub data Position : Type 0 where
  from_start from_end : Position

pub record StringExtractor : Type 0 where
  pub position : Position
  pub left_bound : Bytes
  pub right_bound : Bytes
  pub max_range : ℕ
  pub valid_chars : Option CharTable

abbrev new_with_table : Position → Parts → ℕ → Option CharTable → StringExtractor
new_with_table position parts max_range table = record {
  position = position;
  left_bound = parts.left;
  right_bound = parts.right;
  max_range = max_range;
  valid_chars = table;
}

-- `newStringExtractor`
unfoldable pub new_string_extractor : Position → Parts → ℕ → Checked StringExtractor
unfolding fill_valid_chars
new_string_extractor position parts max_range =
    let w = parts.wildcard in
    if length w == 0
    then bad invalid_wildcard
    else if bytes_eq w (codes "*")
    then ok (new_with_table position parts max_range none)
    else if ltb (length w) 2
        || not (get_or w 0 0 == b'[')
        || not (get_or w (length w - 1) 0 == b']')
    then bad invalid_wildcard
    else and_checked (fill_valid_chars w)
        λ table. ok (new_with_table position parts max_range (some table))

-- `newStringExtractorSimple`
unfoldable pub new_string_extractor_simple : Position → Bytes → ℕ → Checked StringExtractor
unfolding split_pattern new_string_extractor
new_string_extractor_simple position pattern max_range =
    and_checked (split_pattern pattern) λ parts. new_string_extractor position parts max_range
