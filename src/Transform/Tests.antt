-- ===== src/Transform/Tests.antt =====
-- The theorems on transforms at concrete inputs.
use slog_agent.Base.{
  false, [], ◌∷◌, some, ◌≡◌, refl, arith, if◌then◌else◌, codes, Bytes, get_or, has_prefix,
}
use slog_agent.Input.Parser.{LogRecord}
use slog_agent.Transform.Matcher.{LogMatcher, str_any, str_start, match_fields, match_value}
use slog_agent.Transform.Run.{
  Transforms, done, then_, DropTransform, drop_, del_fields, truncate, if_, drop_transform,
  drop_matched, run_transforms, delete_fields, set_field, truncate_value,
}
use slog_agent.Transform.Drop.{IsAtRate, Calls, no_call, call, new_drop, Calls-IsAtRate}
use slog_agent.Transform.Fits.{Good, FitsAll}
use slog_agent.Transform.Safety.{run_transforms_total}
use slog_agent.Transform.Fields.{
  IsTruncated, truncate_value-IsTruncated, delete_fields_lem, listed, append_all, run_second,
  run_transforms-append,
}

abbrev log : LogRecord
log = record {
  fields = codes "info" ∷ codes "hello" ∷ [];
  raw_length = 9;
  timestamp = 0;
  unescaped = false;
}

abbrev m : LogMatcher
m = (0, str_start (codes "in")) ∷ (1, str_any) ∷ []

-- The first matched record is retained, the second one dropped.
abbrev retained_one : DropTransform
retained_one = record (new_drop m 50) { total_matched = 1; retained = (1, 9) }

abbrev dropped_one : DropTransform
dropped_one = record retained_one { total_matched = 2; total_dropped = 1; dropped = (1, 9) }

Calls-dropped_one : Calls (new_drop m 50) dropped_one
unfolding drop_transform match_fields match_value has_prefix drop_matched
Calls-dropped_one = call log (call log no_call refl) refl

Calls-IsAtRate_example : IsAtRate dropped_one
Calls-IsAtRate_example = Calls-IsAtRate m 50 (omega arith) Calls-dropped_one

abbrev steps : Transforms
steps = then_ (if_ m (then_ (truncate 1 1 (codes "..")) done)) (then_ (drop_ (new_drop m 50)) done)

abbrev more : Transforms
more = then_ (del_fields (0 ∷ [])) done

m_fits : FitsAll 2 steps
m_fits =
    (((omega arith, (omega arith, tt)), (omega arith, tt)), ((omega arith, (omega arith, tt)), tt))

run_transforms_total_example : Good 2 (FitsAll 2) (run_transforms steps log)
run_transforms_total_example = run_transforms_total 2 steps log m_fits refl

run_transforms-append_example :
    run_transforms (append_all steps more) log ≡ run_second more (run_transforms steps log)
run_transforms-append_example = run_transforms-append steps more log

-- The cut is in front of the last byte of a sequence of two, behind a byte that is not valid.
abbrev cut_value : Bytes
cut_value = 0xFF ∷ 97 ∷ 0xC3 ∷ 0xA9 ∷ 98 ∷ 99 ∷ []

truncate_value-IsTruncated_example :
    IsTruncated 3 (codes "..") cut_value (truncate_value 3 (codes "..") cut_value)
truncate_value-IsTruncated_example =
    truncate_value-IsTruncated 3 (codes "..") cut_value (omega arith)

deleted : delete_fields (0 ∷ []) log.fields ≡ some ([] ∷ codes "hello" ∷ [])
unfolding delete_fields set_field
deleted = refl

delete_fields_lem_example :
    get_or ([] ∷ codes "hello" ∷ []) 1 []
    ≡ (if listed 1 (0 ∷ []) then [] else get_or log.fields 1 [])
delete_fields_lem_example =
    delete_fields_lem (0 ∷ []) log.fields ([] ∷ codes "hello" ∷ []) 1 deleted
