-- ===== src/Redact/Signs.antt =====
-- Texts with masked addresses, and the signs that the search finds or passes.
use slog_agent.Base.{
  ℕ, zero, suc, ◌+◌, ◌-◌, ◌<◌, ◌≤◌, false, [], ◌∷◌, ◌++◌, none, some, ltb, ltb→lt, length, drop,
  drop-drop, length-drop, slice, index_byte, index_byte-some, Bytes, codes, Bool-cases,
  Option-cases, inl, inr, ◌⊎◌, ◌≢◌, ◌≡◌, refl, ap, sym, ◌∙◌, subst, arith,
}
use slog_agent.Redact.Email.{byte_at, find_email_boundary, next_at, has_neighbours}
use slog_agent.Redact.Masked.{IsEmailAt}

-- A sign that is not redacted, where the text before `limit` is done: it is the last byte, has not a
-- letter or digit on both sides, or there are no bounds of an address around it.
abbrev pub Refused : Bytes → ℕ → ℕ → Type 0
Refused src limit k =
    (length src ≤ k + 1) ⊎ (has_neighbours src k ≡ false) ⊎ (find_email_boundary src k limit ≡ none)

-- Every sign from the limit up to a position is refused.
abbrev pub Clear : Bytes → ℕ → ℕ → Type 0
Clear src limit b =
    (k : ℕ) → limit ≤ k → k < b → k < length src → byte_at src k ≡ b'@' → Refused src limit k

-- A text made of the source up to a position: pieces as they are, each with refused signs only, and
-- masked addresses.
pub data Masked (src : Bytes) : ℕ → Bytes → Type 0 where
  begin : Masked src 0 []
  mask :
      {i a b : ℕ} {out : Bytes}
      → Masked src i out
      → i ≤ a
      → (email : IsEmailAt src a b) → Clear src i email.at
      → Masked src b ((out ++ slice src i a) ++ codes "REDACTED")

-- The whole text: behind the last address every sign is refused.
pub record IsMasked (src out : Bytes) : Type 0 where
  pub copied : ℕ
  pub front : Bytes
  pub masked : Masked src copied front
  pub inside : copied ≤ length src
  pub clear : Clear src copied (length src)
  pub whole : out ≡ front ++ slice src copied (length src)

index_byte-first : (s : Bytes) (b m k : ℕ) → index_byte s b ≡ some m → k < m → byte_at s k ≢ b
unfolding index_byte
index_byte-first [] b m k e h = absurd (ground arith)
index_byte-first (c ∷ s) b zero k e h = absurd (omega arith)
index_byte-first (c ∷ s) b (suc m) zero e h = ground arith
index_byte-first (c ∷ s) b (suc m) (suc k) e h = ground (arith, index_byte-first s b m k)

index_byte-all : (s : Bytes) (b k : ℕ) → index_byte s b ≡ none → k < length s → byte_at s k ≢ b
unfolding index_byte
index_byte-all [] b k e h = absurd (omega arith)
index_byte-all (c ∷ s) b zero e h = ground arith
index_byte-all (c ∷ s) b (suc k) e h = ground (arith, index_byte-all s b k)

suc_plus : (a b : ℕ) → suc a + b ≡ suc (a + b)
suc_plus a b = omega arith

byte_at-drop_plus : (s : Bytes) (i k : ℕ) → byte_at (drop i s) k ≡ byte_at s (i + k)
byte_at-drop_plus s zero k = ap (byte_at s) (omega arith)
byte_at-drop_plus [] (suc i) k = refl
byte_at-drop_plus (c ∷ s) (suc i) k =
    byte_at-drop_plus s i k ∙ ap (byte_at (c ∷ s)) (sym (suc_plus i k))

squeezed : (k a : ℕ) → a ≤ k → k < a + 1 → a ≡ k
squeezed k a h h' = omega arith

abbrev pub NoSign : Bytes → ℕ → ℕ → Type 0
NoSign src a b = (k : ℕ) → a ≤ k → k < b → k < length src → byte_at src k ≢ b'@'

pub next_at-NoSign : (src : Bytes) (i k : ℕ) → next_at src i ≡ some k → NoSign src i k
unfolding next_at
next_at-NoSign src i k e j le lt inside sign = elim (Option-cases (index_byte (drop i src) b'@')) [
  | inl no' ↦ absurd (ground arith)
  | inr (m, found) ↦
      (let at : i + m ≡ k = ground arith in
        index_byte-first (drop i src) b'@' m (j - i) found (omega (arith, at))
          (byte_at-drop_plus src i (j - i) ∙ ap (byte_at src) (omega arith) ∙ sign))
]

pub next_at-none : (src : Bytes) (i : ℕ) → next_at src i ≡ none → NoSign src i (length src)
unfolding next_at
next_at-none src i e j le lt inside sign = elim (Option-cases (index_byte (drop i src) b'@')) [
  | inr (m, found) ↦ absurd (ground arith)
  | inl no' ↦
      index_byte-all (drop i src) b'@' (j - i) no' (omega (arith, length-drop i src))
        (byte_at-drop_plus src i (j - i) ∙ ap (byte_at src) (omega arith) ∙ sign)
]

pub Clear-next :
    (src : Bytes) (limit a b : ℕ) → Clear src limit a → NoSign src a b → Clear src limit b
Clear-next src limit a b h none_ k le lt inside sign = elim (Bool-cases (ltb k a)) [
  | inl yes' ↦ h k le (ltb→lt k a yes') inside sign
  | inr no' ↦ absurd (none_ k (ground arith) lt inside sign)
]

pub Clear-one :
    (src : Bytes) (limit a : ℕ) → Clear src limit a → Refused src limit a → Clear src limit (a + 1)
Clear-one src limit a h r k le lt inside sign = elim (Bool-cases (ltb k a)) [
  | inl yes' ↦ h k le (ltb→lt k a yes') inside sign
  | inr no' ↦ subst (Refused src limit) (squeezed k a (ground arith) lt) r
]

byte_at-drop : (s : Bytes) (k b : ℕ) (t : Bytes) → drop k s ≡ b ∷ t → byte_at s k ≡ b
byte_at-drop [] zero b t e = ground arith
byte_at-drop [] (suc k) b t e = ground arith
byte_at-drop (c ∷ s) zero b t e = ground arith
byte_at-drop (c ∷ s) (suc k) b t e = byte_at-drop s k b t e

-- A sign that is found, from a position on.
abbrev pub IsSign : Bytes → ℕ → ℕ → Type 0
IsSign src i k = (i ≤ k) × (k < length src) × (byte_at src k ≡ b'@')

pub next_at-IsSign : (src : Bytes) (i k : ℕ) → next_at src i ≡ some k → IsSign src i k
unfolding next_at
next_at-IsSign src i k e = elim (Option-cases (index_byte (drop i src) b'@')) [
  | inl no' ↦ absurd (ground arith)
  | inr (m, found) ↦
      (let (front, _, room) = index_byte-some (drop i src) b'@' m found in
        let at : i + m ≡ k = ground arith in
        let there =
          byte_at-drop src (i + m) b'@' (drop (suc m) (drop i src))
            (sym (drop-drop m i src) ∙ front) in
        subst (IsSign src i) at (omega arith, omega (arith, length-drop i src), there))
]
