-- ===== src/Extract/Transform.antt =====
-- transform/textractspecial/textractspecial.go: extractHead and extractTail as transforms.
use slog_agent.Base.{
  ℕ, ◌<◌, Bool, true, Option, none, some, ◌≡◌, ◌≢◌, refl, arith, lt→ltb, ◌==◌, if◌then◌else◌,
  length, length-set, get_elem?-lt, set, Bytes, Bool-cases, inl, inr,
}
use slog_agent.Input.Parser.{LogRecord}
use slog_agent.Transform.Matcher.{get_field}
use slog_agent.Transform.Run.{and_then, set_field, other}
use slog_agent.Transform.Fits.{Fits, Stays}
use slog_agent.Extract.Pattern.{StringExtractor}
use slog_agent.Extract.Label.{Extraction, extract}
use slog_agent.Extract.Sound.{Extracted, extract-Extracted}

-- Both fields are set when the rest is shorter than the value.
abbrev set_both : ℕ → ℕ → Bytes → LogRecord → Bytes × Bytes → Option (Bool × LogRecord)
set_both src dest value record_ (label, rest) =
    if length rest == length value
    then some (true, record_)
    else and_then (set_field src rest record_.fields) λ fields.
      and_then (set_field dest label fields)
        λ fields'. some (true, record record_ { fields = fields' })

unfoldable pub extract_special_transform :
    ℕ → ℕ → StringExtractor → LogRecord → Option (Bool × LogRecord)
unfolding extract set_field
extract_special_transform src dest ex record_ = and_then (get_field src record_.fields) λ value.
    if length value == 0
    then some (true, record_)
    else and_then (extract ex value) (set_both src dest value record_)

extract-some :
    (ex : StringExtractor) (text : Bytes)
    → ex.valid_chars ≢ none
    → (out : Bytes × Bytes) × (extract ex text ≡ some out)
extract-some ex text h = go (extract ex text) refl (extract-Extracted ex text)
  where
    go :
        (o : Extraction)
        → extract ex text ≡ o
        → Extracted ex text o
        → (out : Bytes × Bytes) × (extract ex text ≡ some out)
    go none e x = absurd (h x)
    go (some out) e x = (out, e)

set_both-Stays :
    (n src dest : ℕ) (value : Bytes) (record_ : LogRecord) (out : Bytes × Bytes)
    → src < n
    → dest < n
    → length record_.fields ≡ n
    → Stays n (set_both src dest value record_ out)
unfolding set_field
set_both-Stays n src dest value record_ (label, rest) hs hd e =
    let fields = set record_.fields src rest in
    let size = length-set record_.fields src rest in
    elim (Bool-cases (length rest == length value)) [
      | inl same ↦ rw same e
      | inr shorter ↦
          rw
            (
              shorter,
              lt→ltb src (length record_.fields) (omega arith),
              lt→ltb dest (length fields) (omega (arith, size)),
            )
            (omega (arith, size, length-set fields dest label))
    ]

-- A transform that extracts with a table of valid bytes, and whose two locators are below the number
-- of fields, does not panic and keeps the number of fields: it is one of the transforms that a list
-- of transforms may hold.
pub extract_special-Fits :
    (n src dest : ℕ) (ex : StringExtractor)
    → src < n
    → dest < n
    → ex.valid_chars ≢ none
    → Fits n (other (extract_special_transform src dest ex))
unfolding extract_special_transform set_field
extract_special-Fits n src dest ex hs hd h record_ e =
    let (value, found) = get_elem?-lt record_.fields src (omega arith) in
    let (out, hit) = extract-some ex value h in
    elim (Bool-cases (length value == 0)) [
      | inl empty ↦ rw (found, empty) e
      | inr full ↦ rw (found, full, hit) (set_both-Stays n src dest value record_ out hs hd e)
    ]
