-- ===== src/Time/Tests.antt =====
-- A timestamp at a concrete clock.
use slog_agent.Base.{◌*◌, ◌+◌, ◌++◌, [], ◌∷◌, some, Bytes, codes, ◌≡◌, refl, arith}
use slog_agent.Time.Rfc3339.{Clock, parsed, location, parse_timestamp}
use slog_agent.Time.Printed.{DateTime, print, parse_timestamp-print}

-- Fractions are a half, zones their names, and a time counts hours.
abbrev clock : Clock Bytes
clock = record {
  fraction_nanos = λ s. some 500000000;
  parse_zone = λ layout s. some s;
  local = [];
  date = λ year month day hour min sec nanos place. day * 24 + hour;
}

abbrev date : DateTime
date = record {
  year = 2019;
  month = 8;
  day = 15;
  hour = 15;
  min = 50;
  sec = 46;
  year_digits = omega arith;
  month_digits = omega arith;
  day_digits = omega arith;
  hour_digits = omega arith;
  min_digits = omega arith;
  sec_digits = omega arith;
}

-- 2019-08-15T15:50:46.5Z
parse_timestamp-print_example :
    parse_timestamp clock (print date ++ codes ".5Z") [] ≡ (parsed 375, (codes "Z", codes "Z") ∷ [])
unfolding location
parse_timestamp-print_example =
    parse_timestamp-print clock date b'5' [] (codes "Z") [] ((codes "Z", codes "Z") ∷ []) 500000000
      (codes "Z") (refl, tt) refl refl refl
