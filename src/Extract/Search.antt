-- ===== src/Extract/Search.antt =====
-- What the searches of an extraction find.
use slog_agent.Base.{
  ℕ, zero, suc, ◌+◌, ◌-◌, ◌≤◌, true, false, [], ◌∷◌, ◌++◌, Option, none, some, ◌≡◌, inl, inr, refl,
  ap, sym, ◌∙◌, subst, arith, ltb, ◌==◌, ==_iff, length, take, drop, drop-drop, drop_eq,
  take-append-drop, All, Bytes, has_prefix, Bool-cases,
}
use slog_agent.Extract.Pattern.{CharTable}
use slog_agent.Extract.Label.{
  index_of, last_index_of, match_from_start, match_from_end, count_valid_end, passes,
}

pub some_inj : {A : Type 0} {a b : A} → some a ≡ some b → a ≡ b
some_inj h = cc

pub has_prefix-split :
    (s p : Bytes) → has_prefix s p ≡ true → (s ≡ p ++ drop (length p) s) × (length p ≤ length s)
unfolding has_prefix
has_prefix-split s [] h = (refl, omega arith)
has_prefix-split [] (c ∷ p) h = absurd (ground arith)
has_prefix-split (x ∷ s) (c ∷ p) h = ground (arith, has_prefix-split s p, ==_iff x c)

pub has_prefix-drop :
    (k : ℕ) (s p : Bytes)
    → has_prefix (drop k s) p ≡ true
    → s ≡ take k s ++ (p ++ drop (k + length p) s)
has_prefix-drop k s p h =
    let (e, le) = has_prefix-split (drop k s) p h in
    sym (take-append-drop k s) ∙ ap (◌++◌ (take k s)) (e ∙ ap (◌++◌ p) (drop-drop (length p) k s))

pub has_prefix-take :
    (i m : ℕ) (s p : Bytes)
    → has_prefix (drop i (take m s)) p ≡ true
    → has_prefix (drop i s) p ≡ true
unfolding has_prefix
has_prefix-take zero m s [] h = refl
has_prefix-take zero zero [] (c ∷ p) h = h
has_prefix-take zero zero (x ∷ s) (c ∷ p) h = absurd (ground arith)
has_prefix-take zero (suc m) [] (c ∷ p) h = h
has_prefix-take zero (suc m) (x ∷ s) (c ∷ p) h = ground (arith, has_prefix-take zero m s p)
has_prefix-take (suc i) zero [] p h = h
has_prefix-take (suc i) zero (x ∷ s) [] h = refl
has_prefix-take (suc i) zero (x ∷ s) (c ∷ p) h = absurd (ground arith)
has_prefix-take (suc i) (suc m) [] p h = h
has_prefix-take (suc i) (suc m) (x ∷ s) p h = has_prefix-take i m s p h

-- An index that was found, and the end of what was found there.
abbrev pub IsAt : Bytes → Bytes → ℕ → Type 0
IsAt s sub i = (has_prefix (drop i s) sub ≡ true) × (i + length sub ≤ length s)

pub IsAt-here : (s sub : Bytes) → has_prefix s sub ≡ true → IsAt s sub 0
IsAt-here s sub h = (h, omega (arith, (has_prefix-split s sub h).1))

pub index_of-IsAt : (s sub : Bytes) (i : ℕ) → index_of s sub ≡ some i → IsAt s sub i
unfolding index_of
index_of-IsAt [] sub i h = ground (arith, IsAt-here [] sub)
index_of-IsAt (c ∷ s) sub zero h = ground (arith, IsAt-here (c ∷ s) sub)
index_of-IsAt (c ∷ s) sub (suc i) h = ground (arith, index_of-IsAt s sub i)

pub last_index_of-IsAt : (s sub : Bytes) (i : ℕ) → last_index_of s sub ≡ some i → IsAt s sub i
unfolding last_index_of
last_index_of-IsAt [] sub i h = ground (arith, IsAt-here [] sub)
last_index_of-IsAt (c ∷ s) sub zero h = ground (arith, IsAt-here (c ∷ s) sub)
last_index_of-IsAt (c ∷ s) sub (suc i) h = ground (arith, last_index_of-IsAt s sub i)

abbrev pub AllValid : Option CharTable → Bytes → Type 0
AllValid none tag = Unit
AllValid (some valid) tag = All (λ c. valid c ≡ true) tag

pub match_from_start-All :
    (s : Bytes) (valid : CharTable) (n : ℕ)
    → match_from_start s (some valid) ≡ some n
    → All (λ c. valid c ≡ true) (take n s)
unfolding match_from_start
match_from_start-All [] valid zero h = tt
match_from_start-All [] valid (suc n) h = tt
match_from_start-All (c ∷ s) valid zero h = tt
match_from_start-All (c ∷ s) valid (suc n) h = ground (arith, match_from_start-All s valid n)

count_valid_end_le : (valid : CharTable) (s : Bytes) → count_valid_end valid s ≤ length s
unfolding count_valid_end
count_valid_end_le valid [] = omega arith
count_valid_end_le valid (c ∷ s) = ground (arith, count_valid_end_le valid s)

count_valid_end-All :
    (valid : CharTable) (s : Bytes)
    → All (λ c. valid c ≡ true) (drop (length s - count_valid_end valid s) s)
unfolding count_valid_end
count_valid_end-All valid [] = tt
count_valid_end-All valid (c ∷ s) =
    let n = count_valid_end valid s in
    let le = count_valid_end_le valid s in
    let all = count_valid_end-All valid s in
    let behind : All (λ c. valid c ≡ true) (drop (suc (length s) - n) (c ∷ s)) =
      subst (All (λ c. valid c ≡ true))
        (sym (drop_eq (suc (length s) - n) (suc (length s - n)) (c ∷ s) (omega arith))) all in
    elim (Bool-cases (n == length s)) [
      | inr less ↦ rw less behind
      | inl full ↦ elim (Bool-cases (valid c)) [
        | inr invalid ↦ rw (full, invalid) behind
        | inl ok ↦
            rw (full, ok)
              (let e = (==_iff n (length s)).0 full in
                subst (All (λ c. valid c ≡ true))
                  (sym (drop_eq (suc (length s) - suc n) 0 (c ∷ s) (omega arith)))
                  (
                    ok,
                    subst (All (λ c. valid c ≡ true)) (drop_eq (length s - n) 0 s (omega arith))
                        all,
                  ))
      ]
    ]

pub match_from_end-All :
    (s : Bytes) (valid : CharTable) (k : ℕ)
    → match_from_end s (some valid) ≡ some k
    → All (λ c. valid c ≡ true) (drop k s)
unfolding match_from_end
match_from_end-All [] valid zero h = tt
match_from_end-All [] valid (suc k) h = tt
match_from_end-All (c ∷ s) valid k h =
    subst (λ k. All (λ c. valid c ≡ true) (drop k (c ∷ s))) (some_inj h)
      (count_valid_end-All valid (c ∷ s))

pub take_full : (n : ℕ) (xs : Bytes) → n ≡ length xs → take n xs ≡ xs
take_full zero [] e = refl
take_full (suc n) [] e = refl
take_full zero (x ∷ xs) e = absurd (omega arith)
take_full (suc n) (x ∷ xs) e = ap (◌∷◌ x) (take_full n xs (omega arith))

pub passes-start :
    (table : Option CharTable) (tag : Bytes)
    → passes table (length tag) (match_from_start tag table) ≡ true
    → AllValid table tag
passes-start none tag h = tt
passes-start (some valid) tag h = go (match_from_start tag (some valid)) refl h
  where
    go :
        (o : Option ℕ)
        → match_from_start tag (some valid) ≡ o
        → passes (some valid) (length tag) o ≡ true
        → AllValid (some valid) tag
    go none e h = absurd (ground arith)
    go (some n) e h =
        subst (All (λ c. valid c ≡ true)) (take_full n tag ((==_iff n (length tag)).0 h))
          (match_from_start-All tag valid n e)

pub passes-end :
    (table : Option CharTable) (tag : Bytes)
    → passes table 0 (match_from_end tag table) ≡ true
    → AllValid table tag
passes-end none tag h = tt
passes-end (some valid) tag h = go (match_from_end tag (some valid)) refl h
  where
    go :
        (o : Option ℕ)
        → match_from_end tag (some valid) ≡ o
        → passes (some valid) 0 o ≡ true
        → AllValid (some valid) tag
    go none e h = absurd (ground arith)
    go (some zero) e h = match_from_end-All tag valid 0 e
    go (some (suc n)) e h = absurd (ground arith)

pub match_from_start-AllValid :
    (s : Bytes) (table : Option CharTable) (n : ℕ)
    → match_from_start s table ≡ some n
    → AllValid table (take n s)
match_from_start-AllValid s none n h = tt
match_from_start-AllValid s (some valid) n h = match_from_start-All s valid n h

pub match_from_start-le :
    (s : Bytes) (table : Option CharTable) (n : ℕ)
    → match_from_start s table ≡ some n
    → n ≤ length s
unfolding match_from_start
match_from_start-le [] table n h = ground arith
match_from_start-le (c ∷ s) none n h = absurd (ground arith)
match_from_start-le (c ∷ s) (some valid) zero h = omega arith
match_from_start-le (c ∷ s) (some valid) (suc n) h =
    ground (arith, match_from_start-le s (some valid) n)

pub match_from_start-none :
    (s : Bytes) (table : Option CharTable) → match_from_start s table ≡ none → table ≡ none
unfolding match_from_start
match_from_start-none s none h = refl
match_from_start-none [] (some valid) h = absurd (ground arith)
match_from_start-none (c ∷ s) (some valid) h = ground (arith, match_from_start-none s (some valid))

pub match_from_end-AllValid :
    (s : Bytes) (table : Option CharTable) (k : ℕ)
    → match_from_end s table ≡ some k
    → AllValid table (drop k s)
match_from_end-AllValid s none k h = tt
match_from_end-AllValid s (some valid) k h = match_from_end-All s valid k h

pub match_from_end-none :
    (s : Bytes) (table : Option CharTable) → match_from_end s table ≡ none → table ≡ none
unfolding match_from_end
match_from_end-none s none h = refl
match_from_end-none [] (some valid) h = absurd (ground arith)
match_from_end-none (c ∷ s) (some valid) h = absurd (ground arith)

pub take-take_le : (n m : ℕ) (s : Bytes) → n ≤ m → take n (take m s) ≡ take n s
take-take_le zero m s h = refl
take-take_le (suc n) zero s h = absurd (omega arith)
take-take_le (suc n) (suc m) [] h = refl
take-take_le (suc n) (suc m) (c ∷ s) h = ap (◌∷◌ c) (take-take_le n m s (omega arith))

pub nil_of_short : (s : Bytes) → ltb 0 (length s) ≡ false → s ≡ []
nil_of_short [] h = refl
nil_of_short (c ∷ s) h = absurd (ground arith)
