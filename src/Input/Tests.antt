-- ===== src/Input/Tests.antt =====
-- The theorems on the syslog input at concrete inputs, and tests of the definitions.
use slog_agent.Base.{
  ◌≤◌, Bool, true, false, List, [], ◌∷◌, ◌++◌, ◌≡◌, ◌≢◌, ◌↔◌, ◌⊎◌, inl, refl, arith, ltb, ◌&&◌,
  if◌then◌else◌, length, take, index_byte, Lacks, Bytes, codes, set, some, pos,
}
use slog_agent.Input.Protocol.{test_record_start}
use slog_agent.Input.Protocol.Start.{IsRecord, test_record_start_iff}
use slog_agent.Input.MultiLine.{
  newline, Reader, read, flush, flush_all, process_buffer, split_buffer, scan_loop, scan_line,
  check_overflow,
}
use slog_agent.Input.MultiLine.Invariant.{IsValid, here, reads, flushes, ends, Reach-IsValid}
use slog_agent.Input.MultiLine.Lossless.{IsCut, read-IsCut, flush_lem}
use slog_agent.Input.Parser.{Parser, InputCounters, ok, panic, parse, atoi, message, is_some}
use slog_agent.Input.Parser.Safety.{
  IsParser, Counted, parse_counts, parse_panics_iff, parse-test_record_start,
}
use slog_agent.Input.Parser.Fields.{record_text, header_fields, parse-record_text}
use slog_agent.Input.Protocol.{severity_names}

abbrev record_a : Bytes
record_a = codes "<163>1 2019-08-15T15:50:46 h a 1 f - First"

abbrev record_b : Bytes
record_b = codes "<14>1 2019-08-15T15:51:46 h a 1 f - Next"

abbrev stream : Bytes
stream = record_a ++ codes "\nmore\n" ++ record_b ++ codes "\n"

-- A reader that takes a line with `<` at its head for the start of a record.
abbrev marked : Bytes → Bool
marked [] = false
marked (c ∷ s) = ltb c b'=' && ltb b';' c

abbrev reader : Reader
reader = record { soft_limit = 16; size = 48; buffered = []; offset_search = 0 }

abbrev block : Bytes
block = codes "<a\nb\n<c\nd"

reader-IsValid : IsValid reader
reader-IsValid = record {
  fits = omega arith;
  room = omega arith;
  search_le = omega arith;
  line_start = inl refl;
  unfinished = tt;
}

read-block :
    read marked reader block
    ≡ (record reader { buffered = codes "<c\nd"; offset_search = 3 }, codes "<a\nb" ∷ [])
unfolding read process_buffer split_buffer scan_loop scan_line check_overflow index_byte
read-block = refl

test_record_start_iff_example :
    (test_record_start record_a ≡ true) ↔ ((32 ≤ length record_a) × IsRecord record_a)
test_record_start_iff_example = test_record_start_iff record_a

Reach-IsValid_example : IsValid (flush_all marked (flush marked (read marked reader block).0).0).0
Reach-IsValid_example =
    Reach-IsValid marked reader-IsValid (ends (flushes (reads block here (omega arith))))

kept_block : (read marked reader block).0.buffered ≢ []
kept_block = rw read-block (cc)

read-IsCut_example : IsCut marked block (read marked reader block)
read-IsCut_example = read-IsCut marked reader reader-IsValid block kept_block

full : Reader
full = record reader { buffered = codes "<a\nb"; offset_search = 3 }

flush_lem_example :
    Lacks newline full.buffered × (flush marked full ≡ (full, []))
    ⊎ ((ended : Bytes) × (ended ++ newline ∷ (flush marked full).0.buffered ≡ full.buffered)
        × Lacks newline (flush marked full).0.buffered
        × ((flush marked full).1
            ≡ (if ltb 0 (length ended) && marked ended then ended ∷ [] else [])))
flush_lem_example = flush_lem marked full

-- The parser of `RFC5424Schema`, fields facility, level, time, host, app, pid, source, extradata, log.
abbrev parser : Parser
parser = record {
  level_mapping = severity_names;
  max_fields = 9;
  facility_locator = 0;
  level_locator = 1;
  rest_locators = 2 ∷ 3 ∷ 4 ∷ 5 ∷ 6 ∷ 7 ∷ [];
  log_locator = 8;
}

parser-IsParser : IsParser parser
parser-IsParser = record {
  levels = refl;
  facility_in = omega arith;
  level_in = omega arith;
  rest_in = omega arith;
  log_in = omega arith;
}

abbrev counters : InputCounters
counters = record {
  passed_count = 0;
  passed_length = 0;
  dropped_count = 0;
  dropped_length = 0;
  overflow_lengths = [];
}

abbrev bad_input : Bytes
bad_input = codes "< this is no record of the protocol"

parse_panics_iff_example :
    ((parse parser counters bad_input 0).0 ≡ panic)
    ↔ ((32 ≤ length bad_input) × (take 2 bad_input ≡ codes "< "))
parse_panics_iff_example = parse_panics_iff parser parser-IsParser counters bad_input 0

second_byte : take 2 record_b ≢ codes "< "
second_byte e = cc

not_bad : ¬ ((32 ≤ length record_b) × (take 2 record_b ≡ codes "< "))
not_bad h = second_byte h.1

parse_counts_example : Counted counters record_b (parse parser counters record_b 0)
parse_counts_example = parse_counts parser parser-IsParser counters record_b 0 not_bad

record_b_starts : test_record_start record_b ≡ true
unfolding test_record_start
record_b_starts = refl

parse-test_record_start_example : (parse parser counters record_b 0).0 ≢ panic
parse-test_record_start_example =
    parse-test_record_start parser parser-IsParser counters record_b 0 record_b_starts

abbrev header : List Bytes
header =
    codes "2019-08-15T15:51:46" ∷ codes "h" ∷ codes "a" ∷ codes "1" ∷ codes "f" ∷ codes "-" ∷ []

pri_b : atoi (codes "14") ≡ some (pos 14)
unfolding atoi
pri_b = refl

parse-record_text_example :
    (parse parser counters (record_text (codes "14") header (codes "Next")) 0).0
    ≡ ok (record {
      fields =
          set
            (header_fields parser (codes "user") (codes "info") header)
            8
            (message 40 (codes "Next"));
      raw_length = 40;
      timestamp = 0;
      unescaped = is_some (index_byte (message 40 (codes "Next")) b'\n');
    })
parse-record_text_example =
    parse-record_text parser parser-IsParser (codes "14") 14 (codes "user") (codes "info") pri_b
      (omega arith) refl refl header refl (omega arith) (codes "Next") counters 0 (omega arith)
