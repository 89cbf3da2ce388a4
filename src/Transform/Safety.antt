-- ===== src/Transform/Safety.antt =====
-- Transforms whose locators are inside the schema do not panic and keep the number of fields.
use slog_agent.Base.{
  ℕ, Bool, true, false, List, Option, none, some, ◌≡◌, arith, if◌then◌else◌, length, All, Bytes,
}
use slog_agent.Input.Parser.{LogRecord}
use slog_agent.Transform.Matcher.{LogMatcher, match_fields}
use slog_agent.Transform.Run.{
  Transform, Transforms, Cases, if_, switch_, block, add_fields, del_fields, drop_, map_value,
  truncate, other, done, then_, no_case, case_, Outcome, and_then, with_state, keep, DropTransform,
  drop_matched, drop_transform, transform, run_transforms, run_cases,
}
use slog_agent.Transform.Fits.{
  LocatorFits, Sized, Stays, Good, Fits, FitsAll, FitsCases, delete_fields-Sized,
  expand_fields-Sized, map_field-Sized, truncate_field-Sized, match_fields-some,
}

module _ (n : ℕ) where
  keep-Good :
      {T : Type 0} (P : T → Type 0) (t : T) (record_ : LogRecord) (o : Option (List Bytes))
      → (Sized n) o
      → P t
      → (Good n) P (keep t record_ o)
  keep-Good P t record_ none h p = absurd h
  keep-Good P t record_ (some fields) h p = (h, p)

  with_state-Good :
      {S T : Type 0} (P : S → Type 0) (Q : T → Type 0) (f : S → T) (o : Outcome S)
      → ((s : S) → P s → Q (f s))
      → (Good n) P o
      → (Good n) Q (with_state f o)
  with_state-Good P Q f none g h = absurd h
  with_state-Good P Q f (some (r, record_, s)) g (e, p) = (e, g s p)

  drop_matched-Good :
      (tf : DropTransform) (record_ : LogRecord)
      → All (LocatorFits n) tf.matcher
      → length record_.fields ≡ n
      → (Good n) (λ tf. All (LocatorFits n) tf.matcher) (drop_matched tf record_)
  unfolding drop_matched
  drop_matched-Good tf record_ h e = ground arith

  -- A call behind a matcher.
  after_match-Good :
      {T : Type 0} (P : T → Type 0) (m : LogMatcher) (fields : List Bytes) (k : Bool → Outcome T)
      → All (LocatorFits n) m
      → length fields ≡ n
      → ((b : Bool) → (Good n) P (k b))
      → (Good n) P (and_then (match_fields m fields) k)
  after_match-Good P m fields k h e g =
      let (b, found) = match_fields-some n m fields h e in rw found (g b)

  drop_transform-Good :
      (tf : DropTransform) (record_ : LogRecord)
      → All (LocatorFits n) tf.matcher
      → length record_.fields ≡ n
      → (Good n) (λ tf. All (LocatorFits n) tf.matcher) (drop_transform tf record_)
  unfolding drop_transform
  drop_transform-Good tf record_ h e =
      after_match-Good _ tf.matcher record_.fields _ h e
        (elim [ true ↦ drop_matched-Good tf record_ h e | false ↦ (e, h) ])

  other-Good :
      (f : LogRecord → Option (Bool × LogRecord)) (o : Option (Bool × LogRecord))
      → (Fits n) (other f)
      → (Stays n) o
      → (Good n) (Fits n) (and_then o λ out. some (out.0, out.1, other f))
  other-Good f none h g = absurd g
  other-Good f (some (r, record_)) h g = (g, h)

  after-Good :
      (ts : Transforms) (o : Outcome Transform)
      → (FitsAll n) ts
      → (Good n) (Fits n) o
      → ((r : LogRecord) → length r.fields ≡ n → (Good n) (FitsAll n) (run_transforms ts r))
      → (Good n) (FitsAll n) (
          and_then o λ result.
            if result.0
            then with_state (then_ (result.2)) (run_transforms ts (result.1))
            else some (false, result.1, then_ (result.2) ts))
  after-Good ts none hs g k = absurd g
  after-Good ts (some (true, record_, t)) hs (e, h) k =
      with_state-Good (FitsAll n) (FitsAll n) (then_ t) _ (λ s g. (h, g)) (k record_ e)
  after-Good ts (some (false, record_, t)) hs (e, h) k = (e, (h, hs))

  mutual
    unfolding transform

    transform-Good :
        (t : Transform) (record_ : LogRecord)
        → (Fits n) t
        → length record_.fields ≡ n
        → (Good n) (Fits n) (transform t record_)
    transform-Good (if_ m steps) record_ (hm, h) e =
        after_match-Good (Fits n) m record_.fields _ hm e (elim [
          | true ↦
              with_state-Good (FitsAll n) (Fits n) (if_ m) _ (λ s g. (hm, g))
                (run_transforms-Good steps record_ h e)
          | false ↦ (e, (hm, h))
        ])
    transform-Good (switch_ cases) record_ h e =
        with_state-Good (FitsCases n) (Fits n) switch_ _ (λ s g. g)
          (run_cases-Good cases record_ h e)
    transform-Good (block steps) record_ h e =
        with_state-Good (FitsAll n) (Fits n) block _ (λ s g. g)
          (run_transforms-Good steps record_ h e)
    transform-Good (add_fields pairs) record_ h e =
        keep-Good (Fits n) _ record_ _ (expand_fields-Sized n pairs record_.fields h e) h
    transform-Good (del_fields locs) record_ h e =
        keep-Good (Fits n) _ record_ _ (delete_fields-Sized n locs record_.fields h e) h
    transform-Good (drop_ tf) record_ h e =
        with_state-Good _ (Fits n) drop_ _ (λ s g. g) (drop_transform-Good tf record_ h e)
    transform-Good (map_value loc mapping d) record_ h e =
        keep-Good (Fits n) _ record_ _ (map_field-Sized n loc mapping d record_.fields h e) h
    transform-Good (truncate loc k suffix) record_ h e =
        keep-Good (Fits n) _ record_ _ (truncate_field-Sized n loc k suffix record_.fields h e) h
    transform-Good (other f) record_ h e = other-Good f (f record_) h (h record_ e)

    run_transforms-Good :
        (ts : Transforms) (record_ : LogRecord)
        → (FitsAll n) ts
        → length record_.fields ≡ n
        → (Good n) (FitsAll n) (run_transforms ts record_)
    run_transforms-Good done record_ h e = (e, tt)
    run_transforms-Good (then_ t ts) record_ (h, hs) e =
        after-Good ts (transform t record_) hs (transform-Good t record_ h e)
          (λ r e. run_transforms-Good ts r hs e)

    run_cases-Good :
        (cases : Cases) (record_ : LogRecord)
        → (FitsCases n) cases
        → length record_.fields ≡ n
        → (Good n) (FitsCases n) (run_cases cases record_)
    run_cases-Good no_case record_ h e = (e, tt)
    run_cases-Good (case_ m steps cases) record_ (hm, h, hc) e =
        after_match-Good (FitsCases n) m record_.fields _ hm e (elim [
          | true ↦
              with_state-Good (FitsAll n) (FitsCases n) _ _ (λ s g. (hm, g, hc))
                (run_transforms-Good steps record_ h e)
          | false ↦
              with_state-Good (FitsCases n) (FitsCases n) _ _ (λ s g. (hm, h, g))
                (run_cases-Good cases record_ hc e)
        ])

-- Transforms whose locators are below the number of fields, with transforms of other packages that
-- return a record of as many fields, return from `RunTransforms` without a panic, with a record of as
-- many fields; and their locators stay in bounds, so that this holds for every further record.
pub run_transforms_total :
    (n : ℕ) (ts : Transforms) (record_ : LogRecord)
    → FitsAll n ts
    → length record_.fields ≡ n
    → Good n (FitsAll n) (run_transforms ts record_)
run_transforms_total n ts record_ h e = run_transforms-Good n ts record_ h e
