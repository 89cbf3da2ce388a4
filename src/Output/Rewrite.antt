-- ===== src/Output/Rewrite.antt =====
-- The rewriters of rewrite/ and transform/tunescape. A rewriter writes to a buffer that is at least
-- as long as its `MaxFieldLength`; what is written is a list here, and its length is bounded.
use slog_agent.Base.{
  ℕ, zero, suc, ◌+◌, ◌≤◌, ◌<◌, Bool, true, false, List, [], ◌∷◌, ◌++◌, Option, some, ◌≡◌, refl,
  arith, ltb, lt→ltb, if◌then◌else◌, length, length-append, get_elem?, get_elem?-lt, Bytes, set,
  Bool-cases, inl, inr,
}
use slog_agent.Input.Parser.{LogRecord}
use slog_agent.Text.Unescape.{
  new_syslog_unescaper, find_first, run_to_buffer, run_found, run, run-decode, decode, length-run,
}
use slog_agent.Transform.Matcher.{get_field}
use slog_agent.Transform.Run.{and_then, set_field}

pub data LogRewriter : Type 0 where
  copy_ : LogRewriter
  unescape : LogRewriter
  inline : Bytes → Bytes → ℕ → LogRewriter → LogRewriter

-- `inline` has the header, the separator and the locator of a field, which is `none` out of range.
unfoldable pub max_field_length : LogRewriter → Bytes → LogRecord → Option ℕ
max_field_length copy_ value record_ = some (length value)
max_field_length unescape value record_ = some (length value)
max_field_length (inline header separator loc next) value record_ =
    and_then (get_field loc record_.fields) λ field_value.
      and_then (max_field_length next value record_) λ rest. some (
        if ltb 0 (length field_value)
        then length header + length field_value + length separator + rest
        else rest)

-- The `unescape` rewriter: what it writes, and the flag `Unescaped` behind it.
unfoldable pub write_unescaped : Bytes → LogRecord → Bytes × Bool
unfolding find_first run_to_buffer new_syslog_unescaper
write_unescaped value record_ =
    if record_.unescaped
    then (value, true)
    else (run_found new_syslog_unescaper value (find_first new_syslog_unescaper value), true)

unfoldable pub write_field_body : LogRewriter → Bytes → LogRecord → Option (Bytes × Bool)
unfolding write_unescaped
write_field_body copy_ value record_ = some (value, record_.unescaped)
write_field_body unescape value record_ = some (write_unescaped value record_)
write_field_body (inline header separator loc next) value record_ =
    and_then (get_field loc record_.fields) λ field_value.
      and_then (write_field_body next value record_) λ out. some (
        if ltb 0 (length field_value)
        then (header ++ (field_value ++ (separator ++ out.0)), out.1)
        else out)

-- transform/tunescape: the record behind it, `none` for a locator out of range. It always passes.
unfoldable pub unescape_transform : ℕ → LogRecord → Option LogRecord
unfolding find_first run_to_buffer new_syslog_unescaper set_field
unescape_transform loc record_ =
    if record_.unescaped
    then some record_
    else (and_then (get_field loc record_.fields) λ value.
        if ltb 0 (length value)
        then (and_then
            (set_field loc
              (run_found new_syslog_unescaper value (find_first new_syslog_unescaper value))
              record_.fields)
            λ fields. some (record record_ { fields = fields; unescaped = true }))
        else some (record record_ { unescaped = true }))

-- The locators of a rewriter are below the number of fields.
abbrev pub RewriterFits : ℕ → LogRewriter → Type 0
RewriterFits n copy_ = Unit
RewriterFits n unescape = Unit
RewriterFits n (inline header separator loc next) = (loc < n) × RewriterFits n next

length-write_unescaped :
    (value : Bytes) (record_ : LogRecord) → length (write_unescaped value record_).0 ≤ length value
unfolding write_unescaped run
length-write_unescaped value record_ = elim (Bool-cases record_.unescaped) [
  | inl e ↦ rw e (omega arith)
  | inr e ↦ rw e (length-run new_syslog_unescaper value)
]

-- A rewriter whose locators are in bounds does not panic, in its length or in its writing, and writes
-- at most as many bytes as the length it announced: the buffer of that length is never overrun.
pub write_field_body-max_field_length :
    (r : LogRewriter) (value : Bytes) (record_ : LogRecord)
    → RewriterFits (length record_.fields) r
    → (out : Bytes × Bool) × (limit : ℕ) × (write_field_body r value record_ ≡ some out)
      × (max_field_length r value record_ ≡ some limit)
      × (length (out.0) ≤ limit)
unfolding write_field_body max_field_length
write_field_body-max_field_length copy_ value record_ h =
    ((value, record_.unescaped), length value, refl, refl, omega arith)
write_field_body-max_field_length unescape value record_ h =
    (write_unescaped value record_, length value, refl, refl, length-write_unescaped value record_)
write_field_body-max_field_length (inline header separator loc next) value record_ (h, hs) =
    let (v, found) = get_elem?-lt record_.fields loc h in
    let (out, limit, e, e', le) = write_field_body-max_field_length next value record_ hs in
    elim (Bool-cases (ltb 0 (length v))) [
      | inl full ↦ (
        (header ++ (v ++ (separator ++ out.0)), out.1),
        length header + length v + length separator + limit,
        rw (found, e, full) refl,
        rw (found, e', full) refl,
        omega (
          arith,
          le,
          length-append header (v ++ (separator ++ out.0)),
          length-append v (separator ++ out.0),
          length-append separator (out.0),
        ),
      )
      | inr empty ↦ (out, limit, rw (found, e, empty) refl, rw (found, e', empty) refl, le)
    ]

get_elem?-set :
    (fields : List Bytes) (loc : ℕ) (old new : Bytes)
    → get_elem? fields loc ≡ some old
    → (get_elem? (set fields loc new) loc ≡ some new) × (loc < length fields)
get_elem?-set [] loc old new e = cc
get_elem?-set (x ∷ fields) zero old new e = (refl, omega arith)
get_elem?-set (x ∷ fields) (suc loc) old new e =
    let (found, room) = get_elem?-set fields loc old new e in (found, omega arith)

abbrev decoded : Bytes → Bytes
decoded = decode new_syslog_unescaper

-- A field of a record that is not unescaped yet is unescaped once: by the transform, behind which the
-- rewriter writes it as it is, or by the rewriter alone; both give the text with its escapes read.
pub unescape_once :
    (loc : ℕ) (value : Bytes) (record_ : LogRecord)
    → record_.unescaped ≡ false
    → get_field loc record_.fields ≡ some value
    → ((write_unescaped value record_).0 ≡ decoded value)
      × (new : LogRecord) × (unescape_transform loc record_ ≡ some new)
      × (get_field loc new.fields ≡ some (decoded value))
      × ((write_unescaped (decoded value) new).0 ≡ decoded value)
unfolding unescape_transform write_unescaped set_field run decode
unescape_once loc [] record_ e f = (
  rw e (run-decode new_syslog_unescaper []),
  record record_ { unescaped = true },
  rw (e, f) refl,
  f,
  refl,
)
unescape_once loc (c ∷ value) record_ e f =
    let (found, room) = get_elem?-set record_.fields loc (c ∷ value) (decoded (c ∷ value)) f in
    (
      rw e (run-decode new_syslog_unescaper (c ∷ value)),
      record record_ { fields = set record_.fields loc (decoded (c ∷ value)); unescaped = true },
      rw
          (
            e,
            f,
            lt→ltb 0 (suc (length value)) (omega arith),
            lt→ltb loc (length record_.fields) room,
            run-decode new_syslog_unescaper (c ∷ value),
          )
          refl,
      found,
      refl,
    )
