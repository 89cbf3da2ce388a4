-- ===== src/Input/Parser/Fields.antt =====
-- What `Parse` makes of a well-formed record: the values of its fields.
use slog_agent.Base.{
  ℕ, suc, ◌+◌, ◌-◌, ◌/◌, ◌%◌, ◌≤◌, ◌<◌, true, not, ◌||◌, List, [], ◌∷◌, ◌++◌, some, ◌≡◌, ◌≢◌, refl,
  ap, ◌∙◌, arith, ltb, length, length-append, drop, take, take-append, drop-append, drop_eq, slice,
  get_elem?, set, length-set, replicate, length-replicate, index_byte, index_byte-append, Lacks,
  bytes_eq, All, All-append, Bytes, codes, ℤ, pos,
}
use slog_agent.Input.Protocol.{facility_names}
use slog_agent.Input.Parser.{
  ok, Parser, InputCounters, put_field, next_field_by_space, atoi, last_two, parse_rest, pri_fields,
  parse_pri, parse_header, parse, parse_body, message, is_some,
}
use slog_agent.Input.Parser.Safety.{IsParser}

-- Header fields as they stand in a record, each with the space behind it.
abbrev pub header_text : List Bytes → Bytes → Bytes
header_text [] rest = rest
header_text (h ∷ hs) rest = h ++ b' ' ∷ header_text hs rest

-- The text of a record with the given pri digits, header fields and message.
abbrev pub record_text : Bytes → List Bytes → Bytes → Bytes
record_text ds hs msg = ((b'<' ∷ ds) ++ codes ">1") ++ b' ' ∷ header_text hs msg

-- The fields after setting the values at the locators, in order.
abbrev pub set_all : List ℕ → List Bytes → List Bytes → List Bytes
set_all [] vs fields = fields
set_all (loc ∷ locs) [] fields = fields
set_all (loc ∷ locs) (v ∷ vs) fields = set_all locs vs (set fields loc v)

drop_behind : (u t : Bytes) → drop (suc (length u)) (u ++ b' ' ∷ t) ≡ t
drop_behind [] t = refl
drop_behind (c ∷ u) t = drop_behind u t

next_field_lem : (s t : Bytes) → Lacks b' ' s → next_field_by_space (s ++ b' ' ∷ t) ≡ some (s, t)
unfolding next_field_by_space
next_field_lem s t h =
    rw (index_byte-append s t b' ' h, next_field_by_space)
      (rw (take-append s (b' ' ∷ t), drop_behind s t))

put_field_lem :
    (loc : ℕ) (v : Bytes) (fields : List Bytes)
    → loc < length fields
    → put_field loc v fields ≡ ok (set fields loc v)
unfolding put_field
put_field_lem loc v fields h = ground arith

parse_rest_lem :
    (n : ℕ) (locs : List ℕ) (hs fields : List Bytes) (rest : Bytes)
    → length hs ≡ length locs
    → All (λ loc. loc < n) locs
    → All (Lacks b' ') hs
    → length fields ≡ n
    → parse_rest locs fields (header_text hs rest) ≡ ok (set_all locs hs fields, rest)
unfolding parse_rest
parse_rest_lem n [] [] fields rest e inside clear len = refl
parse_rest_lem n [] (h ∷ hs) fields rest e inside clear len = absurd (omega arith)
parse_rest_lem n (loc ∷ locs) [] fields rest e inside clear len = absurd (omega arith)
parse_rest_lem n (loc ∷ locs) (h ∷ hs) fields rest e (i, inside) (c, clear) len =
    rw (next_field_lem h (header_text hs rest) c, put_field_lem loc h fields (omega arith))
      (parse_rest_lem n locs hs (set fields loc h) rest (omega arith) inside clear
        (length-set fields loc h ∙ len))

module _ (ds : Bytes) where
  abbrev pri_text : Bytes
  pri_text = (b'<' ∷ ds) ++ codes ">1"

  pri_length : length pri_text ≡ length ds + 3
  pri_length = omega (arith, length-append ds (codes ">1"))

  pri_tail : drop (length pri_text - 2) pri_text ≡ codes ">1"
  pri_tail =
      drop_eq (length pri_text - 2) (length (b'<' ∷ ds)) pri_text (omega (arith, pri_length))
      ∙ drop-append (b'<' ∷ ds) (codes ">1")

  last_two_lem : last_two pri_text ≡ ok (codes ">1")
  unfolding last_two
  last_two_lem = ground (arith, pri_tail, pri_length)

  pri_slice : slice pri_text 1 (length pri_text - 2) ≡ ds
  pri_slice =
      ap (λ n. take n (ds ++ codes ">1")) (omega (arith, pri_length)) ∙ take-append ds (codes ">1")

  parse_pri_lem : (p : Parser) (v : ℤ) → atoi ds ≡ some v → parse_pri p pri_text ≡ pri_fields p v
  unfolding parse_pri bytes_eq
  parse_pri_lem p v e = rw (last_two_lem, pri_slice, e)

pri_fields_lem :
    (p : Parser) (v : ℕ) (facility level : Bytes)
    → IsParser p
    → get_elem? facility_names (v / 8) ≡ some facility
    → get_elem? p.level_mapping (v % 8) ≡ some level
    → pri_fields p (pos v)
      ≡ ok (set (set (replicate p.max_fields []) p.facility_locator facility) p.level_locator level)
unfolding pri_fields
pri_fields_lem p v facility level good f l =
    let empty = replicate p.max_fields [] in
    let n = length-replicate {A = Bytes} p.max_fields [] in
    rw (f, l, put_field_lem p.facility_locator facility empty (omega (arith, n, good.facility_in)))
      (put_field_lem p.level_locator level (set empty p.facility_locator facility)
        (omega (arith, n, length-set empty p.facility_locator facility, good.level_in)))

length-set_all :
    (locs : List ℕ) (vs fields : List Bytes) → length (set_all locs vs fields) ≡ length fields
length-set_all [] vs fields = refl
length-set_all (loc ∷ locs) [] fields = refl
length-set_all (loc ∷ locs) (x ∷ vs) fields =
    length-set_all locs vs (set fields loc x) ∙ length-set fields loc x

head_ok :
    (s : Bytes)
    → 32 ≤ length (b'<' ∷ s)
    → not (ltb (length (b'<' ∷ s)) 32 || not (bytes_eq (b'<' ∷ []) (codes "<"))) ≡ true
unfolding bytes_eq
head_ok s len = ground arith

-- The fields in front of the message.
abbrev pub header_fields : Parser → Bytes → Bytes → List Bytes → List Bytes
header_fields p facility level hs =
    set_all p.rest_locators hs
      (set (set (replicate p.max_fields []) p.facility_locator facility) p.level_locator level)

module _ (p : Parser) (good : IsParser p) (ds : Bytes) (v : ℕ) (facility level : Bytes)
    (pri : atoi ds ≡ some (pos v)) (clear : Lacks b' ' ds)
    (f : get_elem? facility_names (v / 8) ≡ some facility)
    (l : get_elem? p.level_mapping (v % 8) ≡ some level) (hs : List Bytes)
    (count : length hs ≡ length p.rest_locators) (spaceless : All (Lacks b' ') hs)
    (msg : Bytes) where
  abbrev headers : List Bytes
  headers = header_fields p facility level hs

  header_length : length headers ≡ p.max_fields
  header_length =
      let empty = replicate {A = Bytes} p.max_fields [] in
      let named = set empty p.facility_locator facility in
      length-set_all p.rest_locators hs (set named p.level_locator level)
      ∙ length-set named p.level_locator level
      ∙ length-set empty p.facility_locator facility
      ∙ length-replicate {A = Bytes} p.max_fields []

  parse_header_lem :
      32 ≤ length (record_text ds hs msg)
      → parse_header p (record_text ds hs msg) ≡ ok (headers, msg)
  unfolding parse_header bytes_eq
  parse_header_lem len =
      rw
        (
          head_ok _ len,
          next_field_lem (pri_text ds) (header_text hs msg) clear_pri,
          parse_pri_lem ds p (pos v) pri,
          pri_fields_lem p v facility level good f l,
        )
        (parse_rest_lem p.max_fields p.rest_locators hs _ msg count good.rest_in spaceless (
          length-set (set empty p.facility_locator facility) p.level_locator level
          ∙ length-set empty p.facility_locator facility
          ∙ length-replicate {A = Bytes} p.max_fields []))
    where
      empty : List Bytes
      empty = replicate p.max_fields []

      clear_pri : Lacks b' ' (pri_text ds)
      clear_pri =
          All-append (λ c. c ≢ b' ') (b'<' ∷ ds) (codes ">1") (omega arith, clear) (omega arith)

  -- A record in the form of the protocol is parsed into its parts: for pri digits of a value `v`
  -- with a facility name and a level name, one text without a space for each of the other header
  -- fields, and any message, in at least 32 bytes. The names, the header fields and the message,
  -- cut and cleaned as `message` says, are set at their locators, and the record is marked as
  -- unescaped exactly if the message has a newline.
  pub parse-record_text :
      (c : InputCounters) (timestamp : ℕ)
      → 32 ≤ length (record_text ds hs msg)
      → (parse p c (record_text ds hs msg) timestamp).0
        ≡ ok (record {
          fields =
              set
                (header_fields p facility level hs)
                p.log_locator
                (message (length (record_text ds hs msg)) msg);
          raw_length = length (record_text ds hs msg);
          timestamp = timestamp;
          unescaped = is_some (index_byte (message (length (record_text ds hs msg)) msg) b'\n');
        })
  unfolding parse
  parse-record_text c timestamp len =
      rw (parse_header_lem len) (rw (put_field_lem p.log_locator _ headers inside, parse_body))
    where
      inside : p.log_locator < length headers
      inside = omega (arith, good.log_in, header_length)
