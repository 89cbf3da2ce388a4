-- ===== src/Extract/Tests.antt =====
-- The theorems on the extraction of labels at concrete inputs.
use slog_agent.Base.{true, false, some, none, ◌≡◌, ◌≢◌, refl, arith, codes, has_prefix, bytes_eq}
use slog_agent.Transform.Run.{other}
use slog_agent.Transform.Fits.{Fits}
use slog_agent.Extract.Pattern.{
  bad, double_hyphen, from_start, from_end, StringExtractor, fill_unescaped, fill_loop, CharTable,
  mark_range,
}
use slog_agent.Extract.Label.{
  extract, extract_label_at_start, extract_label_at_end, index_of, last_index_of, match_from_start,
  trim_control_chars_and_spaces, trim_start, trim_end,
}
use slog_agent.Extract.Sound.{Extracted, extract-Extracted}
use slog_agent.Extract.Transform.{extract_special_transform, extract_special-Fits}

abbrev letters : CharTable
letters = mark_range b'a' b'z' true (λ x. false)

abbrev head : StringExtractor
head = record {
  position = from_start;
  left_bound = codes "[";
  right_bound = codes "] - ";
  max_range = 20;
  valid_chars = some letters;
}

abbrev tail : StringExtractor
tail = record {
  position = from_end;
  left_bound = codes "[";
  right_bound = codes "]";
  max_range = 20;
  valid_chars = none;
}

head_out : extract head (codes "[foo] - text") ≡ some (codes "foo", codes "text")
unfolding extract extract_label_at_start has_prefix index_of match_from_start
    trim_control_chars_and_spaces trim_start trim_end
head_out = refl

tail_out : extract tail (codes "text[ a b ]") ≡ some (codes "a b", codes "text")
unfolding extract extract_label_at_end bytes_eq last_index_of has_prefix
    trim_control_chars_and_spaces trim_start trim_end
tail_out = refl

hyphens : fill_unescaped (codes "a--z") ≡ bad double_hyphen
unfolding fill_unescaped fill_loop
hyphens = refl

extract-Extracted_example :
    Extracted head (codes "[foo] - text") (extract head (codes "[foo] - text"))
extract-Extracted_example = extract-Extracted head (codes "[foo] - text")

has_table : head.valid_chars ≢ none
has_table h = ground arith

extract_special-Fits_example : Fits 2 (other (extract_special_transform 1 0 head))
extract_special-Fits_example = extract_special-Fits 2 1 0 head (omega arith) (omega arith) has_table
