-- ===== src/Transform/Matcher.antt =====
-- base/bmatch: matchers on the fields of a record. Globs and regular expressions are compiled by
-- other packages; a compiled one is a function here. Costs only order the tests, which come sorted.
use slog_agent.Base.{
  ℕ, Bool, true, false, not, List, [], ◌∷◌, Option, none, some, ltb, ◌==◌, if◌then◌else◌, length,
  get_elem?, drop, Bytes, bytes_eq, has_prefix, ℤ, pos, negsuc, ◌-◌, leb, ◌&&◌, ◌||◌,
}

pub data ValueMatch : Type 0 where
  str_any : ValueMatch
  str_eq str_not str_start str_end str_contain : Bytes → ValueMatch
  len_gt len_lt : ℤ → ValueMatch
  compiled : (Bytes → Bool) → ValueMatch

-- `strings.HasSuffix`
unfoldable pub has_suffix : Bytes → Bytes → Bool
has_suffix v s = leb (length s) (length v) && bytes_eq (drop (length v - length s) v) s

-- `strings.Contains`
unfoldable pub contains : Bytes → Bytes → Bool
contains [] s = has_prefix [] s
contains (c ∷ v) s = has_prefix (c ∷ v) s || contains v s

-- The functions that the constructors of base/bmatch/valuematch.go make.
unfoldable pub match_value : ValueMatch → Bytes → Bool
unfolding has_suffix contains
match_value str_any v = not (length v == 0)
match_value (str_eq s) v = bytes_eq v s
match_value (str_not s) v = not (bytes_eq v s)
match_value (str_start s) v = has_prefix v s
match_value (str_end s) v = has_suffix v s
match_value (str_contain s) v = contains v s
match_value (len_gt (pos n)) v = ltb n (length v)
match_value (len_gt (negsuc n)) v = true
match_value (len_lt (pos n)) v = ltb (length v) n
match_value (len_lt (negsuc n)) v = false
match_value (compiled f) v = f v

abbrev pub LogMatcher : Type 0
LogMatcher = List (ℕ × ValueMatch)

-- `Get` panics out of range, which is `none`.
abbrev pub get_field : ℕ → List Bytes → Option Bytes
get_field loc fields = get_elem? fields loc

-- Further fields are not tested behind one that fails.
unfoldable pub match_fields : LogMatcher → List Bytes → Option Bool
unfolding match_value
match_fields [] fields = some true
match_fields ((loc, m) ∷ ms) fields = elim (get_field loc fields) [
  | none ↦ none
  | some value ↦ if match_value m value then match_fields ms fields else some false
]
