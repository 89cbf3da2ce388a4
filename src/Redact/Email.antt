-- ===== src/Redact/Email.antt =====
-- transform/tredactemail/redactemail.go. The tests in front of an access keep its index in the text,
-- so `byte_at` has no case out of range of its own: it is 0 there. Loops have fuel, and are `none`
-- when it runs out.
use slog_agent.Base.{
  ℕ, zero, suc, ◌+◌, ◌-◌, Bool, false, not, ◌&&◌, ◌||◌, [], ◌++◌, Option, none, some, ltb, leb,
  ◌==◌, if◌then◌else◌, length, get_or, drop, slice, index_byte, Bytes, codes,
}
use slog_agent.Transform.Run.{and_then}
use slog_agent.Input.Protocol.{is_digit}

abbrev pub byte_at : Bytes → ℕ → ℕ
byte_at s i = get_or s i 0

unfoldable pub is_word : ℕ → Bool
is_word c = (leb b'A' c && leb c b'Z') || (leb b'a' c && leb c b'z') || is_digit c

unfoldable pub is_address : ℕ → Bool
unfolding is_word
is_address c = is_word c || c == b'.' || c == b'-' || c == b'_'

-- The loop of `redactFindEmailStart`, `n` bytes behind the limit.
unfoldable pub start_loop : Bytes → ℕ → ℕ → ℕ
start_loop src limit zero = limit
start_loop src limit (suc n) =
    let further = start_loop src limit n in
    if is_address (byte_at src (limit + n)) then further else limit + suc n

unfoldable pub find_email_start : Bytes → ℕ → ℕ → Option ℕ
unfolding start_loop
find_email_start src at limit =
    let start = start_loop src limit (at - limit) in
    if ltb 0 start && byte_at src (start - 1) == b'/' then none else some start

pub data DotSearch : Type 0 where
  no_dot : DotSearch
  no_email : DotSearch
  dot : ℕ → DotSearch

-- The search for a dot, with `n` bytes left.
unfoldable pub find_dot : Bytes → ℕ → ℕ → DotSearch
find_dot src i zero = no_dot
find_dot src i (suc n) =
    let further = find_dot src (i + 1) n in
    let c = byte_at src i in
    if not (is_address c) then no_email else if c == b'.' then dot i else further

unfoldable pub end_loop : Bytes → ℕ → ℕ → ℕ
end_loop src i zero = i
end_loop src i (suc n) =
    let further = end_loop src (i + 1) n in if is_address (byte_at src i) then further else i

unfoldable pub check_number : Bytes → Bool
check_number s =
    if ltb (length s) 2
    then false
    else is_digit (byte_at s 0) && is_digit (byte_at s (length s - 1))

abbrev unless_number : Bytes → ℕ → ℕ → Option ℕ
unless_number src at end_ = if check_number (slice src (at + 1) end_) then none else some end_

abbrev pub email_end : Bytes → ℕ → DotSearch → Option ℕ
email_end src at no_email = none
email_end src at no_dot = unless_number src at (length src)
email_end src at (dot i) =
    if i == length src - 1
    then some (length src)
    else if not (is_word (byte_at src (i + 1)))
    then none
    else unless_number src at (end_loop src (i + 2) (length src - (i + 2)))

unfoldable pub find_email_end : Bytes → ℕ → Option ℕ
unfolding find_dot end_loop check_number
find_email_end src at = email_end src at (find_dot src (at + 1) (length src - (at + 1)))

unfoldable pub find_email_boundary : Bytes → ℕ → ℕ → Option (ℕ × ℕ)
unfolding find_email_start find_email_end
find_email_boundary src at limit =
    and_then (find_email_start src at limit)
      λ start. and_then (find_email_end src at) λ end_. some (start, end_)

abbrev from : ℕ → Option ℕ → Option ℕ
from i none = none
from i (some k) = some (i + k)

-- `strings.IndexByte(src[i:], '@')`, as a position of `src`.
unfoldable pub next_at : Bytes → ℕ → Option ℕ
next_at src i = from i (index_byte (drop i src) b'@')

-- A letter or digit on both sides; the position is below the last.
unfoldable pub has_neighbours : Bytes → ℕ → Bool
has_neighbours src at = ltb 0 at && is_word (byte_at src (at - 1)) && is_word (byte_at src (at + 1))

pub record Redaction : Type 0 where
  pub dst : Bytes
  pub copied : ℕ
  pub at : ℕ
  pub redacted : ℕ

abbrev redact_at : Bytes → Redaction → Option (ℕ × ℕ) → Redaction
redact_at src s none = record s { at = s.at + 1 }
redact_at src s (some (start, end_)) = record {
  dst = (s.dst ++ slice src s.copied start) ++ codes "REDACTED";
  copied = end_;
  at = end_;
  redacted = s.redacted + 1;
}

-- One round of the loop of `redactEmail1` up to the search for the next sign.
unfoldable pub round : Bytes → Redaction → Redaction
unfolding find_email_boundary has_neighbours
round src s =
    if has_neighbours src s.at
    then redact_at src s (find_email_boundary src s.at s.copied)
    else record s { at = s.at + 1 }

abbrev finish : Bytes → Redaction → Bytes × ℕ
finish src s = (s.dst ++ slice src s.copied (length src), s.redacted)

unfoldable pub redact_loop : ℕ → Bytes → Redaction → Option (Bytes × ℕ)
unfolding round next_at
redact_loop zero src s = none
redact_loop (suc fuel) src s =
    if ltb (s.at + 1) (length src)
    then (let s' = round src s in
        if leb (length src) s'.at then some (finish src s') else elim (next_at src s'.at) [
          | none ↦ some (finish src s')
          | some at' ↦ redact_loop fuel src (record s' { at = at' })
        ])
    else some (finish src s)

unfoldable pub find_first_loop : ℕ → Bytes → ℕ → Option (Option ℕ)
unfolding has_neighbours next_at
find_first_loop zero src at = none
find_first_loop (suc fuel) src at =
    if ltb (at + 1) (length src)
    then if has_neighbours src at then some (some at) else elim (next_at src (at + 1)) [
      | none ↦ some none
      | some at' ↦ find_first_loop fuel src at'
    ]
    else some none

abbrev pub first_from : Bytes → Option ℕ → Option (Option ℕ)
first_from src none = some none
first_from src (some at) = find_first_loop (length src) src at

-- `redactEmailFindFirst`; without a sign the loop of the code ends in its first round.
unfoldable pub find_first : Bytes → Option (Option ℕ)
unfolding find_first_loop next_at
find_first src = first_from src (next_at src 0)

-- `redactEmail`
unfoldable pub redact_email : Bytes → Option Bytes
unfolding find_first redact_loop
redact_email src = and_then (find_first src) λ first. elim first [
  | none ↦ some src
  | some at ↦
      (and_then
        (redact_loop (length src) src (record { dst = []; copied = 0; at = at; redacted = 0 }))
        λ out. some (out.0))
]
