-- ===== src/Time/Rfc3339.antt =====
-- transform/tparsetime. Fractions are floating-point numbers, and zones and dates are made by the
-- package `time`: these are parameters. A time is a number of nanoseconds.
use slog_agent.Base.{
  ℕ, ◌+◌, ◌-◌, ◌*◌, ◌%◌, Bool, true, false, ◌&&◌, ◌||◌, List, [], ◌∷◌, Option, none, some, ltb,
  ◌==◌, if◌then◌else◌, length, get_elem?, take, drop, Bytes, bytes_eq, codes,
}
use slog_agent.Input.Parser.{LogRecord}
use slog_agent.Input.Protocol.{is_digit}
use slog_agent.Transform.Matcher.{get_field}
use slog_agent.Transform.Run.{and_then}

-- The value of a fraction in nanoseconds, which is `none` for a parse error and stands for `atof3` to
-- `atof9` and `ParseFloat`; and of the package `time` a zone parsed by a layout, the local zone, and the time of a date.
pub record Clock (Zone : Type 0) : Type 0 where
  pub fraction_nanos : Bytes → Option ℕ
  pub parse_zone : Bytes → Bytes → Option Zone
  pub local : Zone
  pub date : ℕ → ℕ → ℕ → ℕ → ℕ → ℕ → ℕ → Zone → ℕ

pub data Outcome (A : Type 0) : Type 0 where
  panic : Outcome A
  failed : Outcome A
  parsed : A → Outcome A

-- `s[0] - '0'` on bytes.
abbrev pub digit : ℕ → ℕ
digit b = (b + 208) % 256

unfoldable pub atoi2 : Bytes → Option ℕ
atoi2 (a ∷ b ∷ _) = some (digit a * 10 + digit b)
atoi2 _ = none

unfoldable pub atoi4 : Bytes → Option ℕ
atoi4 (a ∷ b ∷ c ∷ d ∷ _) = some (digit a * 1000 + digit b * 100 + digit c * 10 + digit d)
atoi4 _ = none

-- `t[i:j]`
unfoldable pub part : Bytes → ℕ → ℕ → Option Bytes
part t i j = if ltb (length t) j then none else some (take (j - i) (drop i t))

-- Whether the bytes at the positions are these; a position out of range panics.
unfoldable pub check : List (ℕ × ℕ) → Bytes → Option Bool
check [] t = some true
check ((i, c) ∷ rest) t =
    let more = check rest in and_then (get_elem? t i) λ b. if b == c then more t else some false

-- The digits in front, and what is behind them.
unfoldable pub span_digits : Bytes → Bytes × Bytes
span_digits [] = ([], [])
span_digits (c ∷ s) =
    let (digits, rest) = span_digits s in if is_digit c then (c ∷ digits, rest) else ([], c ∷ s)

abbrev dotted : Bytes × Bytes → Bytes × Bytes
dotted (digits, rest) = (b'.' ∷ digits, rest)

unfoldable pub split_fraction_and_timezone : Bytes → Bytes × Bytes
unfolding span_digits
split_fraction_and_timezone [] = ([], [])
split_fraction_and_timezone (c ∷ s) =
    if ltb 0 (length s) && c == b'.' then dotted (span_digits s) else ([], c ∷ s)

abbrev pub marks : List (ℕ × ℕ)
marks = (4, b'-') ∷ (7, b'-') ∷ (10, b'T') ∷ (13, b':') ∷ (16, b':') ∷ []

unfoldable pub contains_byte : ℕ → Bytes → Bool
contains_byte c [] = false
contains_byte c (b ∷ s) = b == c || contains_byte c s

-- The numbers of date and time, `none` for a panic.
unfoldable pub date_parts : Bytes → Option (ℕ × ℕ × ℕ × ℕ × ℕ × ℕ)
unfolding atoi2 atoi4 part
date_parts t = and_then (part t 0 4) λ y. and_then (atoi4 y) λ year. and_then (part t 5 7) λ mo.
    and_then (atoi2 mo) λ month. and_then (part t 8 10) λ da. and_then (atoi2 da) λ day.
      and_then (part t 11 13) λ ho. and_then (atoi2 ho) λ hour. and_then (part t 14 16) λ mi.
        and_then (atoi2 mi) λ min.
          and_then (part t 17 19)
            λ se. and_then (atoi2 se) λ sec. some (year, month, day, hour, min, sec)

module _ {Zone : Type 0} (clock : Clock Zone) where
  abbrev pub Cache : Type 0
  Cache = List (Bytes × Zone)

  unfoldable pub cached : Bytes → Cache → Option Zone
  cached tz [] = none
  cached tz ((key, place) ∷ cache) = if bytes_eq key tz then some place else cached tz cache

  abbrev layout_of : Bytes → Bytes
  layout_of tz = if contains_byte b':' tz then codes "Z07:00" else codes "Z0700"

  abbrev add_zone : Bytes → Cache → Option Zone → Option (Zone × Cache)
  add_zone tz cache none = none
  add_zone tz cache (some place) = some (place, (tz, place) ∷ cache)

  abbrev found_zone : Bytes → Cache → Option Zone → Option (Zone × Cache)
  found_zone tz cache (some place) = some (place, cache)
  found_zone tz cache none = add_zone tz cache (clock.parse_zone (layout_of tz) tz)

  -- The location of a timezone, and the cache behind it; `none` for a parse error.
  unfoldable pub location : Bytes → Cache → Option (Zone × Cache)
  unfolding cached contains_byte
  location tz cache =
      if ltb 0 (length tz) then found_zone tz cache (cached tz cache) else some (clock.local, cache)

  abbrev nanos : Bytes → Option ℕ
  nanos fraction = if length fraction == 0 then some 0 else clock.fraction_nanos fraction

  abbrev finish :
      ℕ × ℕ × ℕ × ℕ × ℕ × ℕ → Option ℕ → (Option (Zone × Cache)) → Cache → Outcome ℕ × Cache
  finish d none place cache = (failed, cache)
  finish d (some frac) none cache = (failed, cache)
  finish (year, month, day, hour, min, sec) (some frac) (some (place, cache')) cache =
      (parsed (clock.date year month day hour min sec frac place), cache')

  abbrev parse_rest : Bytes → Cache → Option (ℕ × ℕ × ℕ × ℕ × ℕ × ℕ) → Outcome ℕ × Cache
  parse_rest t cache none = (panic, cache)
  parse_rest t cache (some d) =
      let (fraction, tz) = split_fraction_and_timezone (drop 19 t) in
      finish d (nanos fraction) (location tz cache) cache

  abbrev parse_checked : Bytes → Cache → Option Bool → Outcome ℕ × Cache
  parse_checked t cache none = (panic, cache)
  parse_checked t cache (some false) = (failed, cache)
  parse_checked t cache (some true) = parse_rest t cache (date_parts t)

  -- `parseRFC3339Timestamp`, and the cache behind it.
  unfoldable pub parse_timestamp : Bytes → Cache → Outcome ℕ × Cache
  unfolding check date_parts split_fraction_and_timezone location
  parse_timestamp t cache = parse_checked t cache (check marks t)

  abbrev after_parse : LogRecord → ℕ × ℕ → Outcome ℕ × Cache → Option (LogRecord × (ℕ × ℕ) × Cache)
  after_parse r (count, size) (panic, cache) = none
  after_parse r (count, size) (failed, cache) = some (r, (count + 1, size + r.raw_length), cache)
  after_parse r errors (parsed t, cache) = some (record r { timestamp = t }, errors, cache)

  -- `Transform`: the record, the counter of errors and the cache behind it; `none` for a panic. It
  -- always passes.
  unfoldable pub parse_time : ℕ → LogRecord → ℕ × ℕ → Cache → Option (LogRecord × (ℕ × ℕ) × Cache)
  unfolding parse_timestamp
  parse_time loc r errors cache = and_then (get_field loc r.fields) λ value.
      if length value == 0
      then some (r, errors, cache)
      else after_parse r errors (parse_timestamp value cache)
