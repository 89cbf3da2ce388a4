-- ===== src/Redact/Loop.antt =====
-- The loop that redacts: it ends, and masks addresses only.
use slog_agent.Base.{
  ℕ, zero, suc, ◌+◌, ◌-◌, ◌<◌, ◌≤◌, [], ◌∷◌, ◌++◌, Option, none, some, ltb, leb, length, take,
  slice, Bytes, Bool-cases, Option-cases, inl, inr, ◌≡◌, refl, ap, sym, ◌∙◌, subst, arith,
}
use slog_agent.Redact.Email.{
  byte_at, next_at, has_neighbours, Redaction, round, redact_loop, find_first_loop, first_from,
  find_first, redact_email,
}
use slog_agent.Redact.Masked.{boundary-IsEmailAt}
use slog_agent.Redact.Signs.{
  Refused, Clear, Masked, begin, mask, IsMasked, IsSign, next_at-IsSign, next_at-NoSign,
  next_at-none, Clear-next, Clear-one,
}

-- What holds at the start of a round, and behind it.
record IsAtSign (src : Bytes) (s : Redaction) : Type 0 where
  masked : Masked src s.copied s.dst
  behind : s.copied ≤ s.at
  inside : s.at < length src
  sign : byte_at src s.at ≡ b'@'
  clear : Clear src s.copied s.at

record IsMoved (src : Bytes) (old : ℕ) (s : Redaction) : Type 0 where
  masked : Masked src s.copied s.dst
  behind : s.copied ≤ s.at
  inside : s.at ≤ length src
  further : old < s.at
  clear : Clear src s.copied s.at

stepped :
    (src : Bytes) (s : Redaction)
    → IsAtSign src s
    → Refused src s.copied s.at
    → IsMoved src s.at (record s { at = s.at + 1 })
stepped src s h r = record {
  masked = h.masked;
  behind = omega (arith, h.behind);
  inside = omega (arith, h.inside);
  further = omega arith;
  clear = Clear-one src s.copied s.at h.clear r;
}

round-IsMoved : (src : Bytes) (s : Redaction) → IsAtSign src s → IsMoved src s.at (round src s)
unfolding round
round-IsMoved src s h = elim (Bool-cases (has_neighbours src s.at)) [
  | inr no' ↦ rw no' (stepped src s h (inr (inl no')))
  | inl yes' ↦ elim (boundary-IsEmailAt src s.at s.copied h.behind h.inside h.sign) [
    | inl none_ ↦ rw (yes', none_) (stepped src s h (inr (inr none_)))
    | inr (a, b, found, low, to, email, at) ↦
        rw (yes', found)
          (record {
            masked = mask h.masked low email (subst (Clear src s.copied) (sym at) h.clear);
            behind = omega arith;
            inside = email.inside;
            further = to;
            clear = λ k le lt. absurd (omega arith);
          })
  ]
]

finished :
    (src : Bytes) (s : Redaction)
    → Masked src s.copied s.dst
    → s.copied ≤ length src
    → Clear src s.copied (length src)
    → IsMasked src (s.dst ++ slice src s.copied (length src))
finished src s h le c = record {
  copied = s.copied;
  front = s.dst;
  masked = h;
  inside = le;
  clear = c;
  whole = refl;
}

abbrev IsRun : Bytes → ℕ → Redaction → Type 0
IsRun src fuel s = (out : Bytes × ℕ) × (redact_loop fuel src s ≡ some out) × IsMasked src (out.0)

le_trans : (a b c : ℕ) → a ≤ b → b ≤ c → a ≤ c
le_trans a b c h h' = omega arith

redact_loop-IsRun :
    (fuel : ℕ) (src : Bytes) (s : Redaction)
    → IsAtSign src s
    → length src ≤ fuel + s.at
    → IsRun src fuel s
unfolding redact_loop
redact_loop-IsRun zero src s h enough = absurd (omega (arith, h.inside))
redact_loop-IsRun (suc fuel) src s h enough =
    let s' = round src s in
    let moved = round-IsMoved src s h in
    let le = le_trans s'.copied s'.at (length src) moved.behind moved.inside in
    elim (Bool-cases (ltb (s.at + 1) (length src))) [
      | inr last ↦ rw last (
        _,
        refl,
        finished src s h.masked (omega (arith, h.behind, h.inside)) (λ k le' lt.
            Clear-one src s.copied s.at h.clear (inl (ground arith)) k le' (ground arith)),
      )
      | inl room ↦ elim (Bool-cases (leb (length src) s'.at)) [
        | inl at_end ↦
            rw (room, at_end)
              (
                _,
                refl,
                finished src s' moved.masked le (λ k le' lt. moved.clear k le' (ground arith)),
              )
        | inr on ↦ elim (Option-cases (next_at src s'.at)) [
          | inl no_sign ↦
              rw (room, on, no_sign)
                (
                  _,
                  refl,
                  finished src s' moved.masked le (
                      Clear-next src s'.copied s'.at (length src) moved.clear
                        (next_at-none src s'.at no_sign)),
                )
          | inr (k, found) ↦
              (let (low, inside, sign) = next_at-IsSign src s'.at k found in
                rw (room, on, found)
                  (redact_loop-IsRun fuel src (record s' { at = k })
                    (record {
                      masked = moved.masked;
                      behind = omega (arith, moved.behind, low);
                      inside = inside;
                      sign = sign;
                      clear =
                          Clear-next src s'.copied s'.at k moved.clear
                            (next_at-NoSign src s'.at k found);
                    })
                    (omega (arith, moved.further, low))))
        ]
      ]
    ]

-- A first sign, if one is found, with none before it that has neighbours.
abbrev IsFirst : Bytes → Option ℕ → Type 0
IsFirst src none = Clear src 0 (length src)
IsFirst src (some k) = IsSign src 0 k × Clear src 0 k

find_first_loop-IsFirst :
    (fuel : ℕ) (src : Bytes) (at : ℕ)
    → IsSign src 0 at
    → Clear src 0 at
    → length src ≤ fuel + at
    → (first : Option ℕ) × (find_first_loop fuel src at ≡ some first) × IsFirst src first
unfolding find_first_loop
find_first_loop-IsFirst zero src at (low, inside, sign) clear enough = absurd (omega arith)
find_first_loop-IsFirst (suc fuel) src at (low, inside, sign) clear enough =
    elim (Bool-cases (ltb (at + 1) (length src))) [
      | inr last ↦ rw last (
        none,
        refl,
        λ k le' lt. Clear-one src 0 at clear (inl (ground arith)) k le' (ground arith),
      )
      | inl room ↦ elim (Bool-cases (has_neighbours src at)) [
        | inl yes' ↦ rw (room, yes') (some at, refl, ((low, inside, sign), clear))
        | inr no' ↦
            (let clear' = Clear-one src 0 at clear (inr (inl no')) in
              elim (Option-cases (next_at src (at + 1))) [
                | inl no_sign ↦
                    rw (room, no', no_sign)
                      (
                        none,
                        refl,
                        Clear-next src 0 (at + 1) (length src) clear'
                            (next_at-none src (at + 1) no_sign),
                      )
                | inr (k, found) ↦
                    (let (low', inside', sign') = next_at-IsSign src (at + 1) k found in
                      rw (room, no', found)
                        (find_first_loop-IsFirst fuel src k (omega arith, inside', sign')
                          (Clear-next src 0 (at + 1) k clear' (next_at-NoSign src (at + 1) k found))
                          (omega arith)))
              ])
      ]
    ]

Clear-empty : (src : Bytes) → Clear src 0 0
Clear-empty src k le lt = absurd (omega arith)

find_first-IsFirst :
    (src : Bytes) → (first : Option ℕ) × (find_first src ≡ some first) × IsFirst src first
unfolding find_first
find_first-IsFirst src = elim (Option-cases (next_at src 0)) [
  | inl no_sign ↦ (
    none,
    ap (first_from src) no_sign,
    Clear-next src 0 0 (length src) (Clear-empty src) (next_at-none src 0 no_sign),
  )
  | inr (k, found) ↦
      (let (first, e, h) =
          find_first_loop-IsFirst (length src) src k (next_at-IsSign src 0 k found)
            (Clear-next src 0 0 k (Clear-empty src) (next_at-NoSign src 0 k found)) (omega arith) in
        (first, ap (first_from src) found ∙ e, h))
]

take-length : (s : Bytes) → take (length s) s ≡ s
take-length [] = refl
take-length (c ∷ s) = ap (◌∷◌ c) (take-length s)

minus_zero : (n : ℕ) → n - 0 ≡ n
minus_zero n = omega arith

redact_from :
    (src : Bytes) (first : Option ℕ)
    → find_first src ≡ some first
    → IsFirst src first
    → (out : Bytes) × (redact_email src ≡ some out) × IsMasked src out
unfolding redact_email
redact_from src none e clear = (
  src,
  rw e refl,
  record {
    copied = 0;
    front = [];
    masked = begin;
    inside = omega arith;
    clear = clear;
    whole = sym (ap (λ n. take n src) (minus_zero (length src)) ∙ take-length src);
  },
)
redact_from src (some k) e ((low, inside, sign), clear) =
    let s : Redaction = record { dst = []; copied = 0; at = k; redacted = 0 } in
    let (out, runs, masked) =
      redact_loop-IsRun (length src) src s
        (record {
          masked = begin;
          behind = omega arith;
          inside = inside;
          sign = sign;
          clear = clear;
        })
        (omega arith) in
    (out.0, rw (e, runs) refl, masked)

-- The redaction of a text ends. What it returns is made of the text in order: pieces as they are,
-- with no sign but refused ones, and in place of address characters around a sign the word REDACTED.
pub redact_email-IsMasked :
    (src : Bytes) → (out : Bytes) × (redact_email src ≡ some out) × IsMasked src out
redact_email-IsMasked src =
    let (first, e, found) = find_first-IsFirst src in redact_from src first e found
