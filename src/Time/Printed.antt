-- ===== src/Time/Printed.antt =====
-- Timestamps as RFC 3339 prints them, and what becomes of a record.
use slog_agent.Base.{
  ℕ, suc, ◌+◌, ◌-◌, ◌/◌, ◌%◌, ◌<◌, ◌≤◌, true, false, [], ◌∷◌, ◌++◌, some, ltb, ◌==◌, length, take,
  drop, Bytes, All, ◌≡◌, refl, ap, arith,
}
use slog_agent.Input.Protocol.{is_digit}
use slog_agent.Time.Rfc3339.{
  Clock, parsed, part, atoi2, atoi4, check, marks, span_digits, split_fraction_and_timezone, Cache,
  location, date_parts, parse_timestamp,
}

abbrev pub print2 : ℕ → Bytes
print2 n = (48 + n / 10) ∷ (48 + n % 10) ∷ []

abbrev pub print4 : ℕ → Bytes
print4 n = (48 + n / 1000) ∷ (48 + n / 100 % 10) ∷ (48 + n / 10 % 10) ∷ (48 + n % 10) ∷ []

-- A date and time whose numbers have their digits.
pub record DateTime : Type 0 where
  pub year : ℕ
  pub month : ℕ
  pub day : ℕ
  pub hour : ℕ
  pub min : ℕ
  pub sec : ℕ
  pub year_digits : year < 10000
  pub month_digits : month < 100
  pub day_digits : day < 100
  pub hour_digits : hour < 100
  pub min_digits : min < 100
  pub sec_digits : sec < 100

abbrev pub print : DateTime → Bytes
print d =
    print4 d.year
    ++ (b'-' ∷ print2 d.month
        ++ (b'-' ∷ print2 d.day
            ++ (b'T' ∷ print2 d.hour ++ (b':' ∷ print2 d.min ++ (b':' ∷ print2 d.sec)))))

check-print : (d : DateTime) (rest : Bytes) → check marks (print d ++ rest) ≡ some true
unfolding check
check-print d rest = refl

atoi2-print2 : (n : ℕ) → n < 100 → atoi2 (print2 n) ≡ some n
unfolding atoi2
atoi2-print2 n h = ap some (omega arith)

atoi4-print4 : (n : ℕ) → n < 10000 → atoi4 (print4 n) ≡ some n
unfolding atoi4
atoi4-print4 n h = ap some (omega arith)

part_in : (t : Bytes) (i j : ℕ) → j ≤ length t → part t i j ≡ some (take (j - i) (drop i t))
unfolding part
part_in t i j h = ground arith

date_parts-steps :
    (t y mo da ho mi se : Bytes) (year month day hour min sec : ℕ)
    → part t 0 4 ≡ some y
    → atoi4 y ≡ some year
    → part t 5 7 ≡ some mo
    → atoi2 mo ≡ some month
    → part t 8 10 ≡ some da
    → atoi2 da ≡ some day
    → part t 11 13 ≡ some ho
    → atoi2 ho ≡ some hour
    → part t 14 16 ≡ some mi
    → atoi2 mi ≡ some min
    → part t 17 19 ≡ some se
    → atoi2 se ≡ some sec
    → date_parts t ≡ some (year, month, day, hour, min, sec)
unfolding date_parts
date_parts-steps t y mo da ho mi se year month day hour min sec h1 e1 h2 e2 h3 e3 h4 e4 h5 e5 h6
      e6 =
    rw (h1, e1, h2, e2, h3, e3, h4, e4, h5, e5, h6, e6) refl

date_parts-print :
    (d : DateTime) (rest : Bytes)
    → date_parts (print d ++ rest) ≡ some (d.year, d.month, d.day, d.hour, d.min, d.sec)
date_parts-print d rest =
    let t = print d ++ rest in
    date_parts-steps t (print4 d.year) (print2 d.month) (print2 d.day) (print2 d.hour)
      (print2 d.min) (print2 d.sec) d.year d.month d.day d.hour d.min d.sec
      (part_in t 0 4 (omega arith)) (atoi4-print4 d.year d.year_digits)
      (part_in t 5 7 (omega arith)) (atoi2-print2 d.month d.month_digits)
      (part_in t 8 10 (omega arith)) (atoi2-print2 d.day d.day_digits)
      (part_in t 11 13 (omega arith)) (atoi2-print2 d.hour d.hour_digits)
      (part_in t 14 16 (omega arith)) (atoi2-print2 d.min d.min_digits)
      (part_in t 17 19 (omega arith)) (atoi2-print2 d.sec d.sec_digits)

-- No digit in front.
abbrev pub NoDigit : Bytes → Type 0
NoDigit [] = Unit
NoDigit (c ∷ s) = is_digit c ≡ false

span_digits-none : (tz : Bytes) → NoDigit tz → span_digits tz ≡ ([], tz)
unfolding span_digits
span_digits-none [] h = refl
span_digits-none (c ∷ tz) h = rw h refl

span_digits-append :
    (digits tz : Bytes)
    → All (λ c. is_digit c ≡ true) digits
    → NoDigit tz
    → span_digits (digits ++ tz) ≡ (digits, tz)
unfolding span_digits
span_digits-append [] tz h e = span_digits-none tz e
span_digits-append (c ∷ digits) tz (h, hs) e = rw (h, span_digits-append digits tz hs e) refl

positive : (n : ℕ) → ltb 0 (suc n) ≡ true
positive n = ground arith

split-fraction :
    (digit_ : ℕ) (digits tz : Bytes)
    → All (λ c. is_digit c ≡ true) (digit_ ∷ digits)
    → NoDigit tz
    → split_fraction_and_timezone (b'.' ∷ (digit_ ∷ digits) ++ tz) ≡ (b'.' ∷ digit_ ∷ digits, tz)
unfolding split_fraction_and_timezone
split-fraction digit_ digits tz h e =
    rw (span_digits-append (digit_ ∷ digits) tz h e, positive (length (digits ++ tz))) refl

module _ {Zone : Type 0} (clock : Clock Zone) where
  parse_timestamp-steps :
      (t fraction tz : Bytes) (cache cache' : Cache clock) (year month day hour min sec frac : ℕ)
      (place : Zone)
      → check marks t ≡ some true
      → date_parts t ≡ some (year, month, day, hour, min, sec)
      → split_fraction_and_timezone (drop 19 t) ≡ (fraction, tz)
      → (length fraction == 0) ≡ false
      → clock.fraction_nanos fraction ≡ some frac
      → location clock tz cache ≡ some (place, cache')
      → parse_timestamp clock t cache
        ≡ (parsed (clock.date year month day hour min sec frac place), cache')
  unfolding parse_timestamp
  parse_timestamp-steps t fraction tz cache cache' year month day hour min sec frac place h1 h2 h3
        h4 h5 h6 =
      rw (h1, h2, h3, h4, h5, h6) refl

  -- A printed date, whose numbers have their digits, with a fraction that has a value and a timezone
  -- that begins with no digit and has a location, is parsed to the time of its numbers there, and the
  -- cache is the one that `location` returns.
  pub parse_timestamp-print :
      (d : DateTime) (digit_ : ℕ) (digits tz : Bytes) (cache cache' : Cache clock) (frac : ℕ)
      (place : Zone)
      → All (λ c. is_digit c ≡ true) (digit_ ∷ digits)
      → NoDigit tz
      → clock.fraction_nanos (b'.' ∷ digit_ ∷ digits) ≡ some frac
      → location clock tz cache ≡ some (place, cache')
      → parse_timestamp clock (print d ++ (b'.' ∷ (digit_ ∷ digits) ++ tz)) cache
        ≡ (parsed (clock.date d.year d.month d.day d.hour d.min d.sec frac place), cache')
  parse_timestamp-print d digit_ digits tz cache cache' frac place h e f z =
      let rest = b'.' ∷ (digit_ ∷ digits) ++ tz in
      parse_timestamp-steps (print d ++ rest) (b'.' ∷ digit_ ∷ digits) tz cache cache' d.year
        d.month d.day d.hour d.min d.sec frac place (check-print d rest) (date_parts-print d rest)
        (split-fraction digit_ digits tz h e) (ground arith) f z
