-- ===== src/Base/Slices.antt =====
-- Go's slice expressions `s[a:b]`, and `strings.IndexByte` with what it finds.
use slog_agent.Base.Tests.{◌==◌, if◌then◌else◌}
use slog_agent.Base.Lists.{length, take, drop, take-append-drop, All}
use Prim.Native.Nat.{ℕ, zero, suc, ◌+◌, ◌-◌, ◌≤◌, ◌<◌}
use mathlib.Core.List.{List, [], ◌∷◌, ◌++◌}
use mathlib.Core.Logic.{◌≢◌}
use mathlib.Core.Option.{Option, none, some}
use mathlib.Core.Path.{◌≡◌, refl, ap, ◌∙◌}
use native.Mathlib.Omega.{arith}

module _ {ℓ} {A : Type ℓ} where
  abbrev pub slice : List A → ℕ → ℕ → List A
  slice s a b = take (b - a) (drop a s)

  pub drop_eq : (a b : ℕ) (xs : List A) → a ≡ b → drop a xs ≡ drop b xs
  drop_eq a b xs e = ap (λ n. drop n xs) e

  pub drop-drop : (a b : ℕ) (xs : List A) → drop a (drop b xs) ≡ drop (b + a) xs
  drop-drop a zero xs = drop_eq a (0 + a) xs (omega arith)
  drop-drop zero (suc b) [] = drop_eq (suc b) (suc b + 0) [] (omega arith)
  drop-drop (suc a) (suc b) [] = drop_eq (suc (b + suc a)) (suc b + suc a) [] (omega arith)
  drop-drop a (suc b) (x ∷ xs) =
      drop-drop a b xs ∙ drop_eq (suc (b + a)) (suc b + a) (x ∷ xs) (omega arith)

  pub slice-append-drop : (xs : List A) (a b : ℕ) → a ≤ b → slice xs a b ++ drop b xs ≡ drop a xs
  slice-append-drop xs a b h = rw (← split) (take-append-drop (b - a) (drop a xs))
    where
      split : drop (b - a) (drop a xs) ≡ drop b xs
      split = drop-drop (b - a) a xs ∙ drop_eq (a + (b - a)) b xs (omega arith)

module _ {ℓ} {A : Type ℓ} where
  pub drop-append_le :
      (n : ℕ) (xs ys : List A) → n ≤ length xs → drop n (xs ++ ys) ≡ drop n xs ++ ys
  drop-append_le zero xs ys h = refl
  drop-append_le (suc n) [] ys h = absurd (omega arith)
  drop-append_le (suc n) (x ∷ xs) ys h = drop-append_le n xs ys (omega arith)

-- One step of `strings.IndexByte`.
abbrev pub shift : Option ℕ → Option ℕ
shift none = none
shift (some i) = some (suc i)

-- `strings.IndexByte` and `bytes.IndexByte`; `none` is -1.
unfoldable pub index_byte : List ℕ → ℕ → Option ℕ
index_byte [] b = none
index_byte (c ∷ s) b = if c == b then some 0 else shift (index_byte s b)

abbrev pub Lacks : ℕ → List ℕ → Type 0
Lacks b = All (λ c. c ≢ b)

pub index_byte-none : (s : List ℕ) (b : ℕ) → index_byte s b ≡ none → Lacks b s
unfolding index_byte
index_byte-none [] b h = tt
index_byte-none (c ∷ s) b h = ground (arith, index_byte-none s b)

pub index_byte-some :
    (s : List ℕ) (b i : ℕ)
    → index_byte s b ≡ some i
    → (drop i s ≡ b ∷ drop (suc i) s) × Lacks b (take i s) × (i < length s)
unfolding index_byte
index_byte-some [] b i h = cc
index_byte-some (c ∷ s) b zero h = ground arith
index_byte-some (c ∷ s) b (suc i) h = ground (arith, index_byte-some s b i)

pub index_byte-Lacks : (s : List ℕ) (b : ℕ) → Lacks b s → index_byte s b ≡ none
unfolding index_byte
index_byte-Lacks [] b h = refl
index_byte-Lacks (c ∷ s) b h = ground (arith, index_byte-Lacks s b)

pub index_byte-append :
    (s t : List ℕ) (b : ℕ) → Lacks b s → index_byte (s ++ b ∷ t) b ≡ some (length s)
unfolding index_byte
index_byte-append [] t b h = ground arith
index_byte-append (c ∷ s) t b h = ground (arith, index_byte-append s t b)
