-- ===== src/Input/Parser.antt =====
-- input/syslogparser: `NewParser` and `Parse`, with the counters of base/loginputcounterset.go. A
-- record is the part of `base.LogRecord` that the parser fills; its buffers and its reference
-- count are not modelled. The fields of a fresh record are empty.
pub mod Safety
pub mod Fields
use slog_agent.Base.{
  ℕ, zero, suc, ◌+◌, ◌-◌, ◌*◌, ◌/◌, ◌%◌, ◌^◌, Bool, true, false, not, ◌&&◌, ◌||◌, List, [], ◌∷◌,
  ◌++◌, Option, none, some, ltb, leb, ◌==◌, if◌then◌else◌, length, drop, take, slice, get_elem?,
  set, replicate, index_byte, bytes_eq, Bytes, codes, ℤ, pos, negsuc,
}
use slog_agent.Input.Protocol.{facility_names, severity_names, is_digit}
use slog_agent.Text.Utf8.{clean_utf8}

-- defs/params.go
abbrev pub max_message_bytes : ℕ
max_message_bytes = 1 * 1024 * 1024

abbrev pub max_record_bytes : ℕ
max_record_bytes = max_message_bytes + 256

pub record LogRecord : Type 0 where
  pub fields : List Bytes
  pub raw_length : ℕ
  pub timestamp : ℕ
  pub unescaped : Bool

pub data Warning : Type 0 where
  invalid_syslog unfinished_syslog invalid_pri invalid_pri_value invalid_facility : Warning
  missing_field : ℕ → Warning

-- What a step of `Parse` does: it goes on, drops the record with a warning, or panics.
pub data Result {ℓ} (A : Type ℓ) : Type ℓ where
  ok : A → Result A
  malformed : Warning → Result A
  panic : Result A

infixl 5 ◌>>=◌ ◌>>◌
abbrev pub ◌>>=◌ {ℓ κ} : {A : Type ℓ} {B : Type κ} → Result A → (A → Result B) → Result B
ok a >>= f = f a
malformed w >>= f = malformed w
panic >>= f = panic

abbrev pub ◌>>◌ {ℓ} : {B : Type ℓ} → Result (Unit {0}) → Result B → Result B
m >> k = m >>= λ _. k

abbrev pub require : Bool → Warning → Result (Unit {0})
require true w = ok tt
require false w = malformed w

-- A locator is an index into the fields; `Set` panics out of range.
pub record Parser : Type 0 where
  pub level_mapping : List Bytes
  pub max_fields : ℕ
  pub facility_locator : ℕ
  pub level_locator : ℕ
  pub rest_locators : List ℕ
  pub log_locator : ℕ

unfoldable pub put_field : ℕ → Bytes → List Bytes → Result (List Bytes)
put_field loc value fields = if ltb loc (length fields) then ok (set fields loc value) else panic

-- `nextFieldBySpace`; `none` is its `false`.
unfoldable pub next_field_by_space : Bytes → Option (Bytes × Bytes)
next_field_by_space s = elim (index_byte s b' ') [
  | none ↦ none
  | some end ↦ some (take end s, drop (suc end) s)
]

abbrev pub or_warn {ℓ} : {A : Type ℓ} → Option A → Warning → Result A
or_warn none w = malformed w
or_warn (some a) w = ok a

-- The value of decimal digits behind `n`; `none` at another byte.
unfoldable pub digits_value : ℕ → Bytes → Option ℕ
digits_value n [] = some n
digits_value n (c ∷ s) = if is_digit c then digits_value (n * 10 + (c - b'0')) s else none

abbrev signed_pos : Option ℕ → Option ℤ
signed_pos none = none
signed_pos (some n) = if ltb n (2 ^ 63) then some (pos n) else none

abbrev signed_neg : Option ℕ → Option ℤ
signed_neg none = none
signed_neg (some zero) = some (pos 0)
signed_neg (some (suc n)) = if ltb n (2 ^ 63) then some (negsuc n) else none

-- `strconv.Atoi` on a 64-bit machine: a sign, at least one digit, and a value in range.
unfoldable pub atoi : Bytes → Option ℤ
unfolding digits_value
atoi [] = none
atoi (c ∷ []) = signed_pos (digits_value 0 (c ∷ []))
atoi (c ∷ d ∷ s) =
    if c == b'-'
    then signed_neg (digits_value 0 (d ∷ s))
    else if c == b'+'
    then signed_pos (digits_value 0 (d ∷ s))
    else signed_pos (digits_value 0 (c ∷ d ∷ s))

-- The name of the facility `priVal >> 3`; a negative value has a negative facility.
unfoldable pub facility_name : ℤ → Result Bytes
facility_name (pos n) = or_warn (get_elem? facility_names (n / 8)) invalid_facility
facility_name (negsuc n) = malformed invalid_facility

abbrev or_panic {ℓ} : {A : Type ℓ} → Option A → Result A
or_panic none = panic
or_panic (some a) = ok a

-- `levelMapping[priVal & 0b111]`, reached for a facility that is not negative.
unfoldable pub severity_name : List Bytes → ℤ → Result Bytes
severity_name mapping (pos n) = or_panic (get_elem? mapping (n % 8))
severity_name mapping (negsuc n) = or_panic (get_elem? mapping (7 - n % 8))

-- `val[len(val)-2:]`, which panics on a text of less than two bytes.
unfoldable pub last_two : Bytes → Result Bytes
last_two val = if ltb (length val) 2 then panic else ok (drop (length val - 2) val)

-- The loop over `restFieldLocators`.
unfoldable pub parse_rest : List ℕ → List Bytes → Bytes → Result (List Bytes × Bytes)
unfolding put_field next_field_by_space
parse_rest [] fields remaining = ok (fields, remaining)
parse_rest (loc ∷ locs) fields remaining = do
  (val, next) ← or_warn (next_field_by_space remaining) (missing_field loc)
  fields' ← put_field loc val fields
  parse_rest locs fields' next

-- Facility and level of a pri value, set in the fields of a fresh record.
unfoldable pub pri_fields : Parser → ℤ → Result (List Bytes)
unfolding facility_name severity_name put_field
pri_fields p pri_val = do
  facility ← facility_name pri_val
  fields ← put_field p.facility_locator facility (replicate p.max_fields [])
  severity ← severity_name p.level_mapping pri_val
  put_field p.level_locator severity fields

-- The field `<163>1`.
unfoldable pub parse_pri : Parser → Bytes → Result (List Bytes)
unfolding last_two pri_fields
parse_pri p val = do
  tail ← last_two val
  require (bytes_eq tail (codes ">1")) invalid_pri
  pri_val ← or_warn (atoi (slice val 1 (length val - 2))) invalid_pri_value
  pri_fields p pri_val

-- `Parse` up to the last header field: the fields so far and the remaining text.
unfoldable pub parse_header : Parser → Bytes → Result (List Bytes × Bytes)
parse_header p input = do
  require (not (ltb (length input) 32 || not (bytes_eq (take 1 input) (codes "<")))) invalid_syslog
  (val, next) ← or_warn (next_field_by_space input) unfinished_syslog
  fields ← parse_pri p val
  parse_rest p.rest_locators fields next

-- The message: cut to the limit, and cleaned if the input could have been cut by the reader.
unfoldable pub message : ℕ → Bytes → Bytes
message raw_length remaining =
    let cut =
      if ltb max_message_bytes (length remaining)
      then take max_message_bytes remaining
      else remaining in
    if leb max_record_bytes raw_length then clean_utf8 cut else cut

abbrev pub is_some {ℓ} : {A : Type ℓ} → Option A → Bool
is_some none = false
is_some (some a) = true

unfoldable pub finish_record : Parser → Bytes → ℕ → List Bytes → Bytes → Result LogRecord
unfolding put_field
finish_record p input timestamp fields remaining = do
  let log = message (length input) remaining
  fields' ← put_field p.log_locator log fields
  ok (record {
    fields = fields';
    raw_length = length input;
    timestamp = timestamp;
    unescaped = is_some (index_byte log b'\n');
  })

-- The unwritten values of `LogInputCounterSet`, `uint64` each, and the calls of the overflow counter.
pub record InputCounters : Type 0 where
  pub passed_count : ℕ
  pub passed_length : ℕ
  pub dropped_count : ℕ
  pub dropped_length : ℕ
  pub overflow_lengths : List ℕ

abbrev pub add64 : ℕ → ℕ → ℕ
add64 a b = (a + b) % 2 ^ 64

unfoldable pub count_record_pass : ℕ → InputCounters → InputCounters
count_record_pass raw_length c = record c {
  passed_count = add64 c.passed_count 1;
  passed_length = add64 c.passed_length raw_length;
}

unfoldable pub count_record_drop : ℕ → InputCounters → InputCounters
count_record_drop raw_length c = record c {
  dropped_count = add64 c.dropped_count 1;
  dropped_length = add64 c.dropped_length raw_length;
}

unfoldable pub on_overflow : ℕ → Bytes → InputCounters → InputCounters
on_overflow raw_length remaining c =
    if ltb max_message_bytes (length remaining)
    then record c { overflow_lengths = c.overflow_lengths ++ raw_length ∷ [] }
    else c

finish : ℕ → Bytes → InputCounters → Result LogRecord → Result LogRecord × InputCounters
finish raw_length remaining c (ok record_) =
    (ok record_, count_record_pass raw_length (on_overflow raw_length remaining c))
finish raw_length remaining c (malformed w) = (malformed w, c)
finish raw_length remaining c panic = (panic, c)

pub parse_body :
    Parser
    → Bytes
    → ℕ
    → InputCounters
    → Result (List Bytes × Bytes)
    → Result LogRecord × InputCounters
parse_body p input timestamp c (ok (fields, remaining)) =
    finish (length input) remaining c (finish_record p input timestamp fields remaining)
parse_body p input timestamp c (malformed w) = (malformed w, count_record_drop (length input) c)
parse_body p input timestamp c panic = (panic, c)

unfoldable pub parse : Parser → InputCounters → Bytes → ℕ → Result LogRecord × InputCounters
unfolding parse_body finish count_record_drop count_record_pass on_overflow finish_record
parse p c input timestamp = parse_body p input timestamp c (parse_header p input)
