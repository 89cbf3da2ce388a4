-- ===== src/Transform/Run.antt =====
-- The transforms and `RunTransforms`. A transform holds its state; transforms that are not modelled
-- here one by one (replace, extract, unescape, redactEmail, parseTime) are functions on the record.
use slog_agent.Base.{
  ℕ, suc, ◌+◌, ◌*◌, ◌/◌, ◌&&◌, Bool, true, false, List, [], ◌∷◌, ◌++◌, Option, none, some, ltb,
  ◌==◌, if◌then◌else◌, length, set, take, drop, Bytes, bytes_eq,
}
use slog_agent.Input.Parser.{LogRecord}
use slog_agent.Text.Utf8.{clean_utf8, overwrite_n_truncate}
use slog_agent.Transform.Matcher.{LogMatcher, get_field, match_fields}

-- `target_rate` is a percentage from 1 to 100. The two pairs are what the custom counters got from
-- this transform. The counts are not wrapped: `100 * totalDropped` is below 2^63 for the first
-- 9 * 10^16 records.
pub record DropTransform : Type 0 where
  pub matcher : LogMatcher
  pub target_rate : ℕ
  pub total_matched : ℕ
  pub total_dropped : ℕ
  pub dropped : ℕ × ℕ
  pub retained : ℕ × ℕ

mutual
  pub data Transform : Type 0 where
    if_ : LogMatcher → Transforms → Transform
    switch_ : Cases → Transform
    block : Transforms → Transform
    add_fields : List (ℕ × (List Bytes → Bytes)) → Transform
    del_fields : List ℕ → Transform
    drop_ : DropTransform → Transform
    map_value : ℕ → List (Bytes × Bytes) → Bytes → Transform
    truncate : ℕ → ℕ → Bytes → Transform
    other : (LogRecord → Option (Bool × LogRecord)) → Transform

  pub data Transforms : Type 0 where
    done : Transforms
    then_ : Transform → Transforms → Transforms

  pub data Cases : Type 0 where
    no_case : Cases
    case_ : LogMatcher → Transforms → Cases → Cases

-- What a call returns: PASS or DROP, the record, and the transform with its new state; `none` for a
-- panic.
abbrev pub Outcome : Type 0 → Type 0
Outcome T = Option (Bool × LogRecord × T)

abbrev pub and_then : {A B : Type 0} → Option A → (A → Option B) → Option B
and_then none k = none
and_then (some a) k = k a

abbrev pub with_state : {S T : Type 0} → (S → T) → Outcome S → Outcome T
with_state f none = none
with_state f (some (r, record_, s)) = some (r, record_, f s)

abbrev pub keep : {T : Type 0} → T → LogRecord → Option (List Bytes) → Outcome T
keep t record_ none = none
keep t record_ (some fields) = some (true, record record_ { fields = fields }, t)

-- `Set` and `Del` of a locator.
unfoldable pub set_field : ℕ → Bytes → List Bytes → Option (List Bytes)
set_field loc value fields = if ltb loc (length fields) then some (set fields loc value) else none

unfoldable pub delete_fields : List ℕ → List Bytes → Option (List Bytes)
unfolding set_field
delete_fields [] fields = some fields
delete_fields (loc ∷ locs) fields = and_then (set_field loc [] fields) (delete_fields locs)

-- Each template sees what the pairs before it have set.
unfoldable pub expand_fields : List (ℕ × (List Bytes → Bytes)) → List Bytes → Option (List Bytes)
unfolding set_field
expand_fields [] fields = some fields
expand_fields ((loc, template) ∷ pairs) fields =
    if ltb 0 (length (template fields))
    then and_then (set_field loc (template fields) fields) (expand_fields pairs)
    else expand_fields pairs fields

unfoldable pub lookup : List (Bytes × Bytes) → Bytes → Bytes → Bytes
lookup [] key default_value = default_value
lookup ((k, v) ∷ mapping) key default_value =
    if bytes_eq k key then v else lookup mapping key default_value

unfoldable pub map_field : ℕ → List (Bytes × Bytes) → Bytes → List Bytes → Option (List Bytes)
unfolding set_field lookup
map_field loc mapping default_value fields = and_then (get_field loc fields) λ value.
    if ltb 0 (length value)
    then set_field loc (lookup mapping value default_value) fields
    else some fields

-- The value of `truncate`. `CleanUTF8` works in place, so the bytes in front of the suffix are the
-- cleaned ones.
unfoldable pub truncate_value : ℕ → Bytes → Bytes → Bytes
unfolding clean_utf8 overwrite_n_truncate
truncate_value max_length suffix value =
    if ltb (max_length + length suffix) (length value)
    then (let trimmed = clean_utf8 (take max_length value) in
        overwrite_n_truncate (trimmed ++ drop (length trimmed) value) (length trimmed) suffix)
    else value

unfoldable pub truncate_field : ℕ → ℕ → Bytes → List Bytes → Option (List Bytes)
unfolding set_field truncate_value
truncate_field loc max_length suffix fields = and_then (get_field loc fields) λ value.
    if ltb (max_length + length suffix) (length value)
    then set_field loc (truncate_value max_length suffix value) fields
    else some fields

abbrev count : ℕ → ℕ × ℕ → ℕ × ℕ
count n (records, bytes) = (suc records, bytes + n)

-- The part of the drop transform behind its matcher.
unfoldable pub drop_matched : DropTransform → LogRecord → Outcome DropTransform
drop_matched tf record_ =
    if tf.target_rate == 100
    then some (false, record_, record tf { dropped = count record_.raw_length tf.dropped })
    else if ltb 0 tf.total_matched && ltb (100 * tf.total_dropped / tf.total_matched) tf.target_rate
    then some (
      false,
      record_,
      record tf {
        total_matched = suc tf.total_matched;
        total_dropped = suc tf.total_dropped;
        dropped = count record_.raw_length tf.dropped;
      },
    )
    else some (
      true,
      record_,
      record tf {
        total_matched = suc tf.total_matched;
        retained = count record_.raw_length tf.retained;
      },
    )

unfoldable pub drop_transform : DropTransform → LogRecord → Outcome DropTransform
unfolding match_fields drop_matched
drop_transform tf record_ =
    and_then (match_fields tf.matcher record_.fields)
      λ matched. if matched then drop_matched tf record_ else some (true, record_, tf)

unfoldable mutual
  unfolding match_fields drop_transform delete_fields expand_fields map_field truncate_field

  -- The `Transform` method of each transform.
  pub transform : Transform → LogRecord → Outcome Transform
  transform (if_ m steps) record_ = and_then (match_fields m record_.fields) λ matched.
      if matched
      then with_state (if_ m) (run_transforms steps record_)
      else some (true, record_, if_ m steps)
  transform (switch_ cases) record_ = with_state switch_ (run_cases cases record_)
  transform (block steps) record_ = with_state block (run_transforms steps record_)
  transform (add_fields pairs) record_ =
      keep (add_fields pairs) record_ (expand_fields pairs record_.fields)
  transform (del_fields locs) record_ =
      keep (del_fields locs) record_ (delete_fields locs record_.fields)
  transform (drop_ tf) record_ = with_state drop_ (drop_transform tf record_)
  transform (map_value loc mapping default_value) record_ =
      keep (map_value loc mapping default_value) record_
        (map_field loc mapping default_value record_.fields)
  transform (truncate loc max_length suffix) record_ =
      keep (truncate loc max_length suffix) record_
        (truncate_field loc max_length suffix record_.fields)
  transform (other f) record_ = and_then (f record_) λ out. some (out.0, out.1, other f)

  -- `RunTransforms`: no further transform runs behind a DROP.
  pub run_transforms : Transforms → LogRecord → Outcome Transforms
  run_transforms done record_ = some (true, record_, done)
  run_transforms (then_ t ts) record_ = and_then (transform t record_) λ result.
      if result.0
      then with_state (then_ (result.2)) (run_transforms ts (result.1))
      else some (false, result.1, then_ (result.2) ts)

  pub run_cases : Cases → LogRecord → Outcome Cases
  run_cases no_case record_ = some (true, record_, no_case)
  run_cases (case_ m steps cases) record_ = and_then (match_fields m record_.fields) λ matched.
      if matched
      then with_state (λ s. case_ m s cases) (run_transforms steps record_)
      else with_state (case_ m steps) (run_cases cases record_)
