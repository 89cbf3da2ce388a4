-- ===== src/Chunk/Id.antt =====
-- output/shared/chunkidgen.go: the IDs of chunks, in the order in which they are made.
use native.Mathlib.Nat.{
  div-add-mod', div-lt_iff_lt-mul, lt-div-mul-add, mod-lt, one-le-pow, suc-mul,
}
use slog_agent.Base.{
  ℕ, zero, suc, ◌+◌, ◌*◌, ◌/◌, ◌%◌, ◌^◌, ◌≤◌, ◌<◌, true, false, List, [], ◌∷◌, ◌++◌, ◌≡◌, refl, ap,
  sym, subst, arith, length, ltb, if◌then◌else◌, Bytes, bytes_lt, ◌⊎◌, inl, inr, Bool-cases, ltb→lt,
}

-- `%0wd` for a number of at most `w` digits.
unfoldable pub padded : ℕ → ℕ → Bytes
padded zero n = []
padded (suc w) n = (n / 10 ^ w + b'0') ∷ padded w (n % 10 ^ w)

pub record ChunkIdGenerator : Type 0 where
  pub epoch_nano : ℕ
  pub sequence : ℕ
  pub suffix : Bytes

-- A timestamp and a sequence number in front of the suffix, as they are printed.
unfoldable pub print_id : ℕ → ℕ → Bytes → Bytes
unfolding padded
print_id timestamp sequence suffix = padded 19 timestamp ++ (b'-' ∷ (padded 8 sequence ++ suffix))

-- `Generate` at the time `now`, in nanoseconds. It prints the time that it has read.
unfoldable pub generate : ℕ → ChunkIdGenerator → Bytes × ChunkIdGenerator
unfolding print_id
generate now g =
    if ltb g.epoch_nano now
    then (print_id now 0 g.suffix, record g { epoch_nano = now; sequence = 0 })
    else (print_id now (suc g.sequence) g.suffix, record g { sequence = suc g.sequence })

bytes_lt_head :
    (x y : ℕ) (a b : Bytes)
    → (x < y) ⊎ ((x ≡ y) × (bytes_lt a b ≡ true))
    → bytes_lt (x ∷ a) (y ∷ b) ≡ true
unfolding bytes_lt
bytes_lt_head x y a b (inl h) = ground arith
bytes_lt_head x y a b (inr (e, h)) = ground arith

bytes_lt_same : (p a b : Bytes) → bytes_lt a b ≡ true → bytes_lt (p ++ a) (p ++ b) ≡ true
bytes_lt_same [] a b h = h
bytes_lt_same (x ∷ p) a b h =
    bytes_lt_head x x (p ++ a) (p ++ b) (inr (refl, bytes_lt_same p a b h))

-- The digits before the last `w` first, then the last `w`.
div_cases : (m n p : ℕ) → 0 < p → m < n → (m / p < n / p) ⊎ ((m / p ≡ n / p) × (m % p < n % p))
div_cases m n p pos h =
    let le =
      (div-lt_iff_lt-mul {k = p} {x = m} {y = suc (n / p)} pos).1
        (omega (arith, h, lt-div-mul-add {a = n} pos, suc-mul (n / p) p)) in
    elim (Bool-cases (ltb (m / p) (n / p))) [
      | inl less ↦ inl (ltb→lt (m / p) (n / p) less)
      | inr more ↦
          (let e : m / p ≡ n / p = at_most (m / p) (n / p) more le in
            inr (e, omega (arith, h, div-add-mod' m p, div-add-mod' n p, ap (λ q. q * p) e)))
    ]
  where
    at_most : (a b : ℕ) → ltb a b ≡ false → a < suc b → a ≡ b
    at_most a b h k = ground arith

-- Padded numbers are in the order of the numbers, whatever follows.
padded-lt :
    (w m n : ℕ) (a b : Bytes)
    → m < n
    → n < 10 ^ w
    → bytes_lt (padded w m ++ a) (padded w n ++ b) ≡ true
unfolding padded
padded-lt zero m n a b h k = absurd (omega arith)
padded-lt (suc w) m n a b h k =
    let p = 10 ^ w in
    let pos : 0 < p = one-le-pow w 10 (omega arith) in
    bytes_lt_head (m / p + b'0') (n / p + b'0') (padded w (m % p) ++ a) (padded w (n % p) ++ b)
      (elim (div_cases m n p pos h) [
        | inl less ↦ inl (omega arith)
        | inr (same, less) ↦
            inr (ap (λ d. d + b'0') same, padded-lt w (m % p) (n % p) a b less (mod-lt n pos))
      ])

pub print_id-lt :
    (t t' s s' : ℕ) (suffix : Bytes)
    → t' < 10 ^ 19
    → s' < 10 ^ 8
    → (t < t') ⊎ ((t ≡ t') × (s < s'))
    → bytes_lt (print_id t s suffix) (print_id t' s' suffix) ≡ true
unfolding print_id
print_id-lt t t' s s' suffix ht hs (inl h) = padded-lt 19 t t' _ _ h ht
print_id-lt t t' s s' suffix ht hs (inr (e, h)) = rw e (
    bytes_lt_same (padded 19 t') (b'-' ∷ (padded 8 s ++ suffix)) (b'-' ∷ (padded 8 s' ++ suffix)) (
      bytes_lt_same (b'-' ∷ []) (padded 8 s ++ suffix) (padded 8 s' ++ suffix)
        (padded-lt 8 s s' suffix suffix h hs)))

-- The readings of a clock, one for each ID.
unfoldable pub generate_all : List ℕ → ChunkIdGenerator → List Bytes
unfolding generate
generate_all [] g = []
generate_all (now ∷ times) g = (generate now g).0 ∷ generate_all times (generate now g).1

-- A clock that never goes back, from `epoch` on, within 19 digits.
abbrev pub Runs : ℕ → List ℕ → Type 0
Runs epoch [] = Unit
Runs epoch (now ∷ times) = (epoch ≤ now) × (now < 10 ^ 19) × Runs now times

-- Each ID is below the one behind it.
abbrev pub InOrder : List Bytes → Type 0
InOrder [] = Unit
InOrder (a ∷ []) = Unit
InOrder (a ∷ b ∷ ids) = (bytes_lt a b ≡ true) × InOrder (b ∷ ids)

generate_later :
    (now : ℕ) (g : ChunkIdGenerator)
    → ltb g.epoch_nano now ≡ true
    → generate now g ≡ (print_id now 0 g.suffix, record g { epoch_nano = now; sequence = 0 })
unfolding generate
generate_later now g h = rw h refl

generate_again :
    (now : ℕ) (g : ChunkIdGenerator)
    → ltb g.epoch_nano now ≡ false
    → generate now g
      ≡ (print_id now (suc g.sequence) g.suffix, record g { sequence = suc g.sequence })
unfolding generate
generate_again now g h = rw h refl

not_later : (epoch now : ℕ) → ltb epoch now ≡ false → epoch ≤ now → epoch ≡ now
not_later epoch now h le = ground arith

-- One step of the list behind an ID `id`.
step-InOrder :
    (id : Bytes) (now : ℕ) (times : List ℕ) (g : ChunkIdGenerator) (out : Bytes × ChunkIdGenerator)
    → generate now g ≡ out
    → InOrder (id ∷ (out.0 ∷ generate_all times (out.1)))
    → InOrder (id ∷ generate_all (now ∷ times) g)
unfolding generate_all
step-InOrder id now times g out e h =
    subst (λ r. InOrder (id ∷ (r.0 ∷ generate_all times (r.1)))) (sym e) h

generate_all-InOrder_from :
    (times : List ℕ) (g : ChunkIdGenerator)
    → Runs g.epoch_nano times
    → g.sequence + length times < 10 ^ 8
    → InOrder (print_id g.epoch_nano g.sequence g.suffix ∷ generate_all times g)
unfolding generate_all
generate_all-InOrder_from [] g r room = tt
generate_all-InOrder_from (now ∷ times) g (le, short, r) room =
    let id = print_id g.epoch_nano g.sequence g.suffix in
    elim (Bool-cases (ltb g.epoch_nano now)) [
      | inl later ↦
          (let g' = record g { epoch_nano = now; sequence = 0 } in
            step-InOrder id now times g (print_id now 0 g.suffix, g') (generate_later now g later)
              (
                print_id-lt g.epoch_nano now g.sequence 0 g.suffix short (omega arith)
                    (inl (ltb→lt g.epoch_nano now later)),
                generate_all-InOrder_from times g' r (omega (arith, room)),
              ))
      | inr again ↦
          (let s = suc g.sequence in
            let e = not_later g.epoch_nano now again le in
            let g' = record g { sequence = s } in
            step-InOrder id now times g (print_id now s g.suffix, g') (generate_again now g again)
              (
                print_id-lt g.epoch_nano now g.sequence s g.suffix short (omega (arith, room))
                    (inr (e, omega arith)),
                subst (λ t. InOrder (print_id t s g.suffix ∷ generate_all times g')) e
                    (generate_all-InOrder_from times g' (subst (λ t. Runs t times) (sym e) r)
                      (omega (arith, room))),
              ))
    ]

behind_first : (id : Bytes) (ids : List Bytes) → InOrder (id ∷ ids) → InOrder ids
behind_first id [] h = tt
behind_first id (a ∷ ids) (_, h) = h

-- With a clock that never goes back, of at most 19 digits, and fewer than 10^8 chunks, the printed IDs
-- of a generator ascend in the order of strings: sorting chunks by ID, as the client and the scan of
-- the queue directory do, is sorting them by their making.
pub generate_all-InOrder :
    (times : List ℕ) (g : ChunkIdGenerator)
    → Runs g.epoch_nano times
    → g.sequence + length times < 10 ^ 8
    → InOrder (generate_all times g)
generate_all-InOrder times g r room =
    behind_first (print_id g.epoch_nano g.sequence g.suffix) (generate_all times g)
      (generate_all-InOrder_from times g r room)
