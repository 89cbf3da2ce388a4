-- ===== src/Msgpack/Laws.antt =====
-- What the writers leave in the buffer, and that the reader reads it back.
use slog_agent.Base.{
  ℕ, zero, suc, ◌+◌, ◌-◌, ◌/◌, ◌%◌, ◌<◌, ◌≤◌, Bool, true, ◌&&◌, [], ◌∷◌, ◌++◌, some, ◌≡◌, refl, ap,
  sym, ◌∙◌, arith, length, length-append, length-drop, append_assoc, take, drop, take-append, set,
  Bytes,
}
use slog_agent.Transform.Run.{and_then}
use slog_agent.Msgpack.Writer.{Written, Writer, ◌>>◌, put, copy_in, write2, write4}

-- The writer puts `enc` at its position, over what is there, where `need` bytes have room.
pub record Writes (w : Writer) (need : ℕ) (enc : Bytes) : Type 0 where
  pub fits : length enc ≤ need
  pub writes :
      (before old : Bytes)
      → need ≤ length old
      → w (before ++ old) (length before)
        ≡ some (before ++ (enc ++ drop (length enc) old), length before + length enc)

pub Writes-wider : {w : Writer} {m n : ℕ} {e : Bytes} → Writes w m e → m ≤ n → Writes w n e
Writes-wider h le = record {
  fits = omega (arith, h.fits);
  writes = λ before old room. h.writes before old (omega arith);
}

pub Writes-as :
    {w w' : Writer} {need : ℕ} {enc : Bytes}
    → ((buffer : Bytes) (position : ℕ) → w buffer position ≡ w' buffer position)
    → Writes w' need enc
    → Writes w need enc
Writes-as same h = record {
  fits = h.fits;
  writes = λ before old room. same _ _ ∙ h.writes before old room;
}

drop-nil : (n : ℕ) → drop {A = ℕ} n [] ≡ []
drop-nil zero = refl
drop-nil (suc n) = refl

set-append : (s : Bytes) (o : ℕ) (t : Bytes) (b : ℕ) → set (s ++ o ∷ t) (length s) b ≡ s ++ b ∷ t
set-append [] o t b = refl
set-append (c ∷ s) o t b = ap (◌∷◌ c) (set-append s o t b)

pub put-Writes : (b : ℕ) → Writes (put b) 1 (b ∷ [])
unfolding put
put-Writes b = record { fits = omega arith; writes = at_one }
  where
    at_one :
        (before old : Bytes)
        → 1 ≤ length old
        → put b (before ++ old) (length before)
          ≡ some (before ++ (b ∷ drop 1 old), length before + 1)
    at_one before [] h = absurd (omega arith)
    at_one before (o ∷ old) h =
        ground (arith, length-append before (o ∷ old), set-append before o old b)

-- A place in the buffer, with what is before it in two parts.
pub moved {ℓ} :
    {X : Type ℓ} (f : Bytes → ℕ → X) (a b c : Bytes)
    → f (a ++ (b ++ c)) (length a + length b) ≡ f ((a ++ b) ++ c) (length (a ++ b))
moved f a b c =
    ap (λ s. f s (length a + length b)) (sym (append_assoc a b c))
    ∙ ap (f ((a ++ b) ++ c)) (sym (length-append a b))

pub same_place :
    {b b' : Bytes} {p p' : ℕ} → b ≡ b' → p ≡ p' → Path Written (some (b, p)) (some (b', p'))
same_place {b} {b'} {p} {p'} eb ep = ap (λ s. some (s, p)) eb ∙ ap (λ n. some (b', n)) ep

drop-append_both :
    (e e' s : Bytes) → drop (length e') (drop (length e) s) ≡ drop (length (e ++ e')) s
drop-append_both [] e' s = refl
drop-append_both (c ∷ e) e' [] = drop-nil (length e')
drop-append_both (c ∷ e) e' (b ∷ s) = drop-append_both e e' s

-- Two texts put over the same buffer, one behind the other.
pub joined :
    (before e e' old : Bytes)
    → (before ++ e) ++ (e' ++ drop (length e') (drop (length e) old))
      ≡ before ++ ((e ++ e') ++ drop (length (e ++ e')) old)
joined before e e' old =
    append_assoc before e (e' ++ drop (length e') (drop (length e) old))
    ∙ ap (λ s. before ++ s)
        (sym (append_assoc e e' (drop (length e') (drop (length e) old)))
          ∙ ap (λ s. (e ++ e') ++ s) (drop-append_both e e' old))

-- One writer behind another.
pub >>-Writes :
    {w w' : Writer} {m n : ℕ} {e e' : Bytes}
    → Writes w m e
    → Writes w' n e'
    → Writes (w >> w') (m + n) (e ++ e')
>>-Writes {w} {w'} {m} {n} {e} {e'} h h' = record {
  fits = omega (arith, h.fits, h'.fits, length-append e e');
  writes = λ before old room.
      (let first = h.writes before old (omega arith) in
        let mid = drop (length e) old in
        let second =
          h'.writes (before ++ e) mid (omega (arith, h.fits, length-drop (length e) old)) in
        ap (λ at. and_then at λ out. w' (out.0) (out.1)) first
        ∙ moved w' before e mid
        ∙ second
        ∙ same_place (joined before e e' old)
            (omega (arith, length-append before e, length-append e e')));
}

take_all : (s : Bytes) (n : ℕ) → length s ≤ n → take n s ≡ s
take_all [] zero h = refl
take_all [] (suc n) h = refl
take_all (c ∷ s) zero h = absurd (omega arith)
take_all (c ∷ s) (suc n) h = ap (◌∷◌ c) (take_all s n (omega arith))

suc_plus : (a b : ℕ) → suc a + b ≡ suc (a + b)
suc_plus a b = omega arith

drop_past : (s : Bytes) (n : ℕ) (t : Bytes) → drop (length s + n) (s ++ t) ≡ drop n t
drop_past [] n t = ap (λ k. drop k t) (omega arith)
drop_past (c ∷ s) n t = ap (λ k. drop k (c ∷ (s ++ t))) (suc_plus (length s) n) ∙ drop_past s n t

-- A copy that has room copies everything.
pub copy_in-Writes : (s : Bytes) → Writes (copy_in s) (length s) s
unfolding copy_in
copy_in-Writes s = record { fits = omega arith; writes = at_place }
  where
    at_place :
        (before old : Bytes)
        → length s ≤ length old
        → copy_in s (before ++ old) (length before)
          ≡ some (before ++ (s ++ drop (length s) old), length before + length s)
    at_place before old room = ground (
      arith,
      length-append before old,
      take_all s (length (before ++ old) - length before),
      take-append before old,
      drop_past before (length s) old,
    )

pub write2-Writes : (n : ℕ) → Writes (write2 n) 2 (n / 256 % 256 ∷ n % 256 ∷ [])
unfolding write2
write2-Writes n = >>-Writes (put-Writes (n / 256 % 256)) (put-Writes (n % 256))

pub write4-Writes :
    (n : ℕ)
    → Writes (write4 n) 4 (n / 16777216 % 256 ∷ n / 65536 % 256 ∷ n / 256 % 256 ∷ n % 256 ∷ [])
unfolding write4
write4-Writes n =
    >>-Writes (>>-Writes (>>-Writes (put-Writes _) (put-Writes _)) (put-Writes _)) (put-Writes _)

-- A check of every number below a bound.
abbrev pub all_below : ℕ → (ℕ → Bool) → Bool
all_below zero f = true
all_below (suc n) f = f n && all_below n f

pub below : (n : ℕ) (f : ℕ → Bool) (i : ℕ) → all_below n f ≡ true → i < n → f i ≡ true
below zero f i h lt = absurd (omega arith)
below (suc n) f i h lt = ground (arith, below n f i)
