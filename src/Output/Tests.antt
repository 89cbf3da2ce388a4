-- ===== src/Output/Tests.antt =====
-- The theorems on unescaping and rewriting at concrete inputs.
use slog_agent.Base.{ℕ, ◌≤◌, Bool, false, [], ◌∷◌, some, ◌≡◌, refl, arith, codes, length, Bytes}
use slog_agent.Input.Parser.{LogRecord}
use slog_agent.Text.Unescape.{new_syslog_unescaper, run, run-decode, decode, length-run}
use slog_agent.Transform.Matcher.{get_field}
use slog_agent.Output.Rewrite.{
  LogRewriter, inline, unescape, write_field_body, max_field_length,
  write_field_body-max_field_length, unescape_once, unescape_transform, write_unescaped,
}

-- `a\nb\`
abbrev text : Bytes
text = 97 ∷ 92 ∷ 110 ∷ 98 ∷ 92 ∷ []

abbrev log : LogRecord
log = record { fields = codes "web" ∷ text ∷ []; raw_length = 9; timestamp = 0; unescaped = false }

abbrev r : LogRewriter
r = inline (codes "app=") (codes " ") 0 unescape

run-decode_example : run new_syslog_unescaper text ≡ decode new_syslog_unescaper text
run-decode_example = run-decode new_syslog_unescaper text

length-run_example : length (run new_syslog_unescaper text) ≤ length text
length-run_example = length-run new_syslog_unescaper text

write_field_body-max_field_length_example :
    (out : Bytes × Bool) × (limit : ℕ) × (write_field_body r text log ≡ some out)
    × (max_field_length r text log ≡ some limit)
    × (length (out.0) ≤ limit)
write_field_body-max_field_length_example =
    write_field_body-max_field_length r text log (omega arith, tt)

unescape_once_example :
    ((write_unescaped text log).0 ≡ decode new_syslog_unescaper text)
    × (new : LogRecord) × (unescape_transform 1 log ≡ some new)
    × (get_field 1 new.fields ≡ some (decode new_syslog_unescaper text))
    × ((write_unescaped (decode new_syslog_unescaper text) new).0
        ≡ decode new_syslog_unescaper text)
unescape_once_example = unescape_once 1 text log refl refl
