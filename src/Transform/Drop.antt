-- ===== src/Transform/Drop.antt =====
-- The rate of the drop transform, transform/tdrop: after any records, the share of matched records
-- that it has dropped.
use slog_agent.Base.{
  ℕ, zero, suc, ◌+◌, ◌*◌, ◌/◌, ◌≤◌, ◌<◌, ◌&&◌, Bool, true, false, Option, none, some, ◌≡◌, ap,
  subst, arith, ltb, ◌==◌, if◌then◌else◌, Bool-cases, inl, inr,
}
use native.Mathlib.Nat.{div-lt_iff_lt-mul, mul-suc, mul-zero, le-div_iff_mul-le}
use slog_agent.Input.Parser.{LogRecord}
use slog_agent.Transform.Matcher.{LogMatcher, match_fields}
use slog_agent.Transform.Run.{DropTransform, Outcome, and_then, drop_matched, drop_transform}

-- 100 times the dropped records are within 100 of the rate times the matched ones, and the counters
-- tell how many were dropped and retained.
pub record IsAtRate (tf : DropTransform) : Type 0 where
  pub below_100 : tf.target_rate < 100
  pub at_most : 100 * tf.total_dropped + tf.target_rate ≤ tf.target_rate * tf.total_matched + 99
  pub at_least : tf.target_rate * tf.total_matched ≤ 100 * tf.total_dropped + tf.target_rate
  pub drops : tf.dropped.0 ≡ tf.total_dropped
  pub retains : tf.retained.0 + tf.total_dropped ≡ tf.total_matched

abbrev Holds : (DropTransform → Type 0) → Outcome DropTransform → Type 0
Holds P none = Unit
Holds P (some (r, record_, tf)) = P tf

drop_next-IsAtRate :
    (tf : DropTransform) (n : ℕ)
    → 0 < tf.total_matched
    → 100 * tf.total_dropped / tf.total_matched < tf.target_rate
    → IsAtRate tf
    → IsAtRate (record tf {
      total_matched = suc tf.total_matched;
      total_dropped = suc tf.total_dropped;
      dropped = (suc (tf.dropped.0), n);
    })
drop_next-IsAtRate tf n p h k =
    let below = (div-lt_iff_lt-mul {k = tf.total_matched} {x = 100 * tf.total_dropped} p).0 h in
    let step = mul-suc tf.target_rate tf.total_matched in
    record {
      below_100 = k.below_100;
      at_most = omega (arith, below, step, k.below_100);
      at_least = omega (arith, step, k.at_least, k.below_100);
      drops = ap suc k.drops;
      retains = omega (arith, k.retains);
    }

retain_next-IsAtRate :
    (tf : DropTransform) (n : ℕ)
    → tf.target_rate * tf.total_matched ≤ 100 * tf.total_dropped
    → IsAtRate tf
    → IsAtRate
        (record tf { total_matched = suc tf.total_matched; retained = (suc (tf.retained.0), n) })
retain_next-IsAtRate tf n h k =
    let step = mul-suc tf.target_rate tf.total_matched in
    record {
      below_100 = k.below_100;
      at_most = omega (arith, step, k.at_most);
      at_least = omega (arith, step, h);
      drops = k.drops;
      retains = omega (arith, k.retains);
    }

-- The test of the source without its division.
test-le : (t m d : ℕ) → (ltb 0 m && ltb (100 * d / m) t) ≡ false → t * m ≤ 100 * d
test-le t zero d h = omega (arith, mul-zero t)
test-le t (suc m) d h = (le-div_iff_mul-le {k = suc m} {x = t} (omega arith)).0 (ground arith)

test-lt : (t m d : ℕ) → (ltb 0 m && ltb (100 * d / m) t) ≡ true → (0 < m) × (100 * d / m < t)
test-lt t zero d h = absurd (ground arith)
test-lt t (suc m) d h = (omega arith, ground arith)

rate_not_100 : (t : ℕ) → t < 100 → (t == 100) ≡ false
rate_not_100 t h = ground arith

drop_matched-IsAtRate :
    (tf : DropTransform) (record_ : LogRecord)
    → IsAtRate tf
    → Holds IsAtRate (drop_matched tf record_)
unfolding drop_matched
drop_matched-IsAtRate tf record_ k =
    let t = tf.target_rate in
    let m = tf.total_matched in
    let d = tf.total_dropped in
    rw (rate_not_100 t k.below_100) (elim (Bool-cases (ltb 0 m && ltb (100 * d / m) t)) [
      | inl e ↦ rw e (drop_next-IsAtRate tf _ (test-lt t m d e).0 (test-lt t m d e).1 k)
      | inr e ↦ rw e (retain_next-IsAtRate tf _ (test-le t m d e) k)
    ])

at_match :
    (tf : DropTransform) (record_ : LogRecord) (o : Option Bool)
    → IsAtRate tf
    → Holds IsAtRate (drop_matched tf record_)
    → Holds IsAtRate (
        and_then o λ matched. if matched then drop_matched tf record_ else some (true, record_, tf))
at_match tf record_ none k h = tt
at_match tf record_ (some true) k h = h
at_match tf record_ (some false) k h = k

drop_transform-IsAtRate :
    (tf : DropTransform) (record_ : LogRecord)
    → IsAtRate tf
    → Holds IsAtRate (drop_transform tf record_)
unfolding drop_transform
drop_transform-IsAtRate tf record_ k =
    at_match tf record_ (match_fields tf.matcher record_.fields) k
      (drop_matched-IsAtRate tf record_ k)

-- The calls of a drop transform with any records, up to one that panics.
pub data Calls (start : DropTransform) : DropTransform → Type 0 where
  no_call : Calls start start
  call :
      {tf next : DropTransform} (record_ : LogRecord) {r : Bool} {out : LogRecord}
      → Calls start tf
      → drop_transform tf record_ ≡ some (r, out, next)
      → Calls start next

-- A new transform, before any record.
abbrev pub new_drop : LogMatcher → ℕ → DropTransform
new_drop m rate = record {
  matcher = m;
  target_rate = rate;
  total_matched = 0;
  total_dropped = 0;
  dropped = (0, 0);
  retained = (0, 0);
}

-- With a rate below 100, after any calls of a new drop transform, the number of dropped records is
-- within one of the rate's share of the matched ones, and the counters of dropped and of retained
-- records add up to the matched ones.
pub Calls-IsAtRate :
    (m : LogMatcher) (rate : ℕ) {tf : DropTransform}
    → rate < 100
    → Calls (new_drop m rate) tf
    → IsAtRate tf
Calls-IsAtRate m rate h no_call = ground (arith, mul-zero rate)
Calls-IsAtRate m rate h (call {tf} record_ c e) =
    subst (Holds IsAtRate) e (drop_transform-IsAtRate tf record_ (Calls-IsAtRate m rate h c))
