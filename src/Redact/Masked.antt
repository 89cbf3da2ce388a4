-- ===== src/Redact/Masked.antt =====
-- What is redacted: runs of address characters around a sign, and nothing else.
use slog_agent.Base.{
  ℕ, zero, suc, ◌+◌, ◌-◌, ◌<◌, ◌≤◌, true, false, ◌&&◌, Option, none, some, ltb, ◌==◌, ==_iff,
  ltb→lt, if◌then◌else◌, length, slice, Bytes, Bool-cases, Option-cases, inl, inr, ◌⊎◌, ◌≡◌, ◌≢◌,
  refl, subst, arith,
}
use slog_agent.Redact.Email.{
  byte_at, is_word, is_address, start_loop, find_email_start, DotSearch, no_dot, no_email, dot,
  find_dot, end_loop, check_number, email_end, find_email_end, find_email_boundary,
}

-- Address characters from one position up to another.
abbrev pub Span : Bytes → ℕ → ℕ → Type 0
Span src a b = (j : ℕ) → a ≤ j → j < b → is_address (byte_at src j) ≡ true

Span-empty : (src : Bytes) (a : ℕ) → Span src a a
Span-empty src a j h h' = absurd (omega arith)

Span-one : (src : Bytes) (a : ℕ) → is_address (byte_at src a) ≡ true → Span src a (a + 1)
Span-one src a e j h h' = let same : j ≡ a = omega arith in rw same e

Span-join : (src : Bytes) (a b c : ℕ) → Span src a b → Span src b c → Span src a c
Span-join src a b c h h' j le lt = elim (Bool-cases (ltb j b)) [
  | inl yes' ↦ h j le (ltb→lt j b yes')
  | inr no' ↦ h' j (ground arith) lt
]

start_loop_lem :
    (src : Bytes) (limit n : ℕ)
    → (let start = start_loop src limit n in
        (limit ≤ start) × (start ≤ limit + n) × Span src start (limit + n))
unfolding start_loop
start_loop_lem src limit zero = (omega arith, omega arith, λ j h h'. absurd (omega arith))
start_loop_lem src limit (suc n) =
    let (low, high, span) = start_loop_lem src limit n in
    elim (Bool-cases (is_address (byte_at src (limit + n)))) [
      | inl yes' ↦ rw yes' (
        low,
        omega arith,
        λ j h h'.
            Span-join src (start_loop src limit n) (limit + n) (limit + n + 1) span
              (Span-one src (limit + n) yes') j h (omega arith),
      )
      | inr no' ↦ rw no' (omega arith, omega arith, Span-empty src (limit + suc n))
    ]

-- What a search for a dot over `n` bytes has seen.
abbrev Seen : Bytes → ℕ → ℕ → DotSearch → Type 0
Seen src i n no_email = Unit
Seen src i n no_dot = Span src i (i + n)
Seen src i n (dot k) = (i ≤ k) × (k < i + n) × Span src i (k + 1)

Seen-cons :
    (src : Bytes) (i n : ℕ) (d : DotSearch)
    → is_address (byte_at src i) ≡ true
    → Seen src (i + 1) n d
    → Seen src i (suc n) d
Seen-cons src i n no_email e h = tt
Seen-cons src i n no_dot e h =
    λ j le lt. Span-join src i (i + 1) (i + 1 + n) (Span-one src i e) h j le (omega arith)
Seen-cons src i n (dot k) e (low, high, span) =
    (omega arith, omega arith, Span-join src i (i + 1) (k + 1) (Span-one src i e) span)

find_dot-Seen : (src : Bytes) (i n : ℕ) → Seen src i n (find_dot src i n)
unfolding find_dot
find_dot-Seen src i zero = λ j h h'. absurd (omega arith)
find_dot-Seen src i (suc n) = elim (Bool-cases (is_address (byte_at src i))) [
  | inr no' ↦ rw no' tt
  | inl yes' ↦ elim (Bool-cases (byte_at src i == b'.')) [
    | inl is_dot ↦ rw (yes', is_dot) (omega arith, omega arith, Span-one src i yes')
    | inr other ↦
        rw (yes', other)
          (Seen-cons src i n (find_dot src (i + 1) n) yes' (find_dot-Seen src (i + 1) n))
  ]
]

end_loop_lem :
    (src : Bytes) (i n : ℕ)
    → (let end_ = end_loop src i n in (i ≤ end_) × (end_ ≤ i + n) × Span src i end_)
unfolding end_loop
end_loop_lem src i zero = (omega arith, omega arith, Span-empty src i)
end_loop_lem src i (suc n) =
    let (low, high, span) = end_loop_lem src (i + 1) n in
    elim (Bool-cases (is_address (byte_at src i))) [
      | inl yes' ↦ rw yes' (
        omega arith,
        omega arith,
        Span-join src i (i + 1) (end_loop src (i + 1) n) (Span-one src i yes') span,
      )
      | inr no' ↦ rw no' (omega arith, omega arith, Span-empty src i)
    ]

-- An address in the text: address characters around a sign.
pub record IsEmailAt (src : Bytes) (a b : ℕ) : Type 0 where
  pub at : ℕ
  pub from : a ≤ at
  pub to : at < b
  pub inside : b ≤ length src
  pub sign : byte_at src at ≡ b'@'
  pub user : Span src a at
  pub domain : Span src (at + 1) b

is_word-is_address : (c : ℕ) → is_word c ≡ true → is_address c ≡ true
unfolding is_address
is_word-is_address c h = rw h refl

abbrev IsEnd : Bytes → ℕ → ℕ → Type 0
IsEnd src at b = (at < b) × (b ≤ length src) × Span src (at + 1) b

some_injective : (a b : ℕ) → Path (Option ℕ) (some a) (some b) → a ≡ b
some_injective a b e = ground arith

not_none : {b : ℕ} → Path (Option ℕ) none (some b) → ⊥
not_none e = ground arith

not_eq : (a b : ℕ) → (a == b) ≡ false → a ≢ b
not_eq a b e = ground arith

unless_number-IsEnd :
    (src : Bytes) (at end_ b : ℕ)
    → IsEnd src at end_
    → (if check_number (slice src (at + 1) end_) then none else some end_) ≡ some b
    → IsEnd src at b
unless_number-IsEnd src at end_ b h e = elim (Bool-cases (check_number (slice src (at + 1) end_))) [
  | inl number ↦ absurd (not_none (rw number at e))
  | inr other ↦ subst (IsEnd src at) (some_injective end_ b (rw other at e)) h
]

email_end-IsEnd :
    (src : Bytes) (at b : ℕ) (d : DotSearch)
    → at < length src
    → Seen src (at + 1) (length src - (at + 1)) d
    → email_end src at d ≡ some b
    → IsEnd src at b
email_end-IsEnd src at b no_email lt h e = absurd (not_none e)
email_end-IsEnd src at b no_dot lt h e =
    unless_number-IsEnd src at (length src) b
      (omega arith, omega arith, λ j le lt'. h j le (omega arith)) e
email_end-IsEnd src at b (dot i) lt (low, high, span) e = elim (Bool-cases (i == length src - 1)) [
  | inl last ↦
      (let same = some_injective (length src) b (rw last at e) in
        let at_end = (==_iff i (length src - 1)).0 last in
        (omega arith, omega arith, λ j le lt'. span j le (omega (arith, at_end))))
  | inr more ↦ elim (Bool-cases (is_word (byte_at src (i + 1)))) [
    | inr no' ↦ absurd (not_none (rw (more, no') at e))
    | inl word ↦
        (let (l, u, s) = end_loop_lem src (i + 2) (length src - (i + 2)) in
          let end_ = end_loop src (i + 2) (length src - (i + 2)) in
          let one = Span-one src (i + 1) (is_word-is_address (byte_at src (i + 1)) word) in
          let behind = Span-join src (i + 1) (i + 2) end_ (λ j le lt'. one j le (omega arith)) s in
          unless_number-IsEnd src at end_ b
            (
              omega arith,
              omega (arith, not_eq i (length src - 1) more),
              Span-join src (at + 1) (i + 1) end_ span behind,
            )
            (rw (more, word) at e))
  ]
]

email_start_lem :
    (src : Bytes) (at limit a : ℕ)
    → limit ≤ at
    → find_email_start src at limit ≡ some a
    → (limit ≤ a) × (a ≤ at) × Span src a at
unfolding find_email_start
email_start_lem src at limit a le e =
    let start = start_loop src limit (at - limit) in
    let (low, high, span) = start_loop_lem src limit (at - limit) in
    elim (Bool-cases (ltb 0 start && byte_at src (start - 1) == b'/')) [
      | inl slash ↦ absurd (not_none (rw slash at e))
      | inr other ↦
          subst (λ k. (limit ≤ k) × (k ≤ at) × Span src k at)
            (some_injective start a (rw other at e))
            (low, omega arith, λ j le' lt. span j le' (omega arith))
    ]

email_end_lem :
    (src : Bytes) (at b : ℕ) → at < length src → find_email_end src at ≡ some b → IsEnd src at b
unfolding find_email_end
email_end_lem src at b lt e =
    email_end-IsEnd src at b (find_dot src (at + 1) (length src - (at + 1))) lt
      (find_dot-Seen src (at + 1) (length src - (at + 1))) e

-- A boundary that is found is one of an address.
pub boundary-IsEmailAt :
    (src : Bytes) (at limit : ℕ)
    → limit ≤ at
    → at < length src
    → byte_at src at ≡ b'@'
    → (find_email_boundary src at limit ≡ none)
      ⊎ ((a : ℕ) × (b : ℕ) × (find_email_boundary src at limit ≡ some (a, b))
          × (limit ≤ a)
          × (at < b)
          × (email : IsEmailAt src a b) × (email.at ≡ at))
unfolding find_email_boundary
boundary-IsEmailAt src at limit le lt sign = elim (Option-cases (find_email_start src at limit)) [
  | inl no_start ↦ inl (rw no_start refl)
  | inr (a, start) ↦ elim (Option-cases (find_email_end src at)) [
    | inl no_end ↦ inl (rw (start, no_end) refl)
    | inr (b, end_) ↦
        (let (low, high, user) = email_start_lem src at limit a le start in
          let (to, inside, domain) = email_end_lem src at b lt end_ in
          inr (
            a,
            b,
            rw (start, end_) refl,
            low,
            to,
            record {
              at = at;
              from = high;
              to = to;
              inside = inside;
              sign = sign;
              user = user;
              domain = domain;
            },
            refl,
          ))
  ]
]
