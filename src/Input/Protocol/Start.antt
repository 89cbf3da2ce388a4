-- ===== src/Input/Protocol/Start.antt =====
-- `TestRecordStart` against the grammar of a record's head: `<`, one to three digits, `>1 `.
use native.Mathlib.Decide.{ℕ_discrete}
use slog_agent.Base.{◌≢◌, ℕ, ◌≤◌, ◌≡◌, ◌↔◌, true, [], ◌∷◌, ◌++◌, arith, length, All, Bytes}
use slog_agent.Input.Protocol.{is_digit, test_record_start}

-- A record's head, as the protocol writes it, before the rest of the record.
pub record IsRecord (s : Bytes) : Type 0 where
  pub pri : Bytes
  pub rest : Bytes
  pub shape : s ≡ b'<' ∷ (pri ++ (b'>' ∷ b'1' ∷ b' ' ∷ rest))
  pub digits : All (λ c. is_digit c ≡ true) pri
  pub at_least_one : 1 ≤ length pri
  pub at_most_three : length pri ≤ 3

head_complete :
    (pri rest : Bytes)
    → All (λ c. is_digit c ≡ true) pri
    → 1 ≤ length pri
    → length pri ≤ 3
    → 32 ≤ length (b'<' ∷ (pri ++ (b'>' ∷ b'1' ∷ b' ' ∷ rest)))
    → test_record_start (b'<' ∷ (pri ++ (b'>' ∷ b'1' ∷ b' ' ∷ rest))) ≡ true
unfolding test_record_start
head_complete [] rest d lo hi len = absurd (omega arith)
head_complete (a ∷ []) rest d lo hi len = ground arith
head_complete (a ∷ b ∷ []) rest d lo hi len = ground arith
head_complete (a ∷ b ∷ c ∷ []) rest d lo hi len = ground arith
head_complete (a ∷ b ∷ c ∷ e ∷ pri) rest d lo hi len = absurd (omega arith)

module _ (a b c d e f g : ℕ) (s : Bytes) where
  abbrev text : Bytes
  text = a ∷ b ∷ c ∷ d ∷ e ∷ f ∷ g ∷ s

  head_one : test_record_start text ≡ true → c ≡ b'>' → IsRecord text
  unfolding test_record_start
  head_one h k = record {
    pri = b ∷ [];
    rest = f ∷ g ∷ s;
    shape = ground arith;
    digits = ground arith;
    at_least_one = omega arith;
    at_most_three = omega arith;
  }

  head_two : test_record_start text ≡ true → c ≢ b'>' → d ≡ b'>' → IsRecord text
  unfolding test_record_start
  head_two h k l = record {
    pri = b ∷ c ∷ [];
    rest = g ∷ s;
    shape = ground arith;
    digits = ground arith;
    at_least_one = omega arith;
    at_most_three = omega arith;
  }

  head_three : test_record_start text ≡ true → c ≢ b'>' → d ≢ b'>' → IsRecord text
  unfolding test_record_start
  head_three h k l = record {
    pri = b ∷ c ∷ d ∷ [];
    rest = s;
    shape = ground arith;
    digits = ground arith;
    at_least_one = omega arith;
    at_most_three = omega arith;
  }

  head_sound : test_record_start text ≡ true → (32 ≤ length text) × IsRecord text
  head_sound h = (
    unfold test_record_start in ground arith,
    elim (ℕ_discrete c b'>') [
      | yes one ↦ head_one h one
      | no more ↦ elim (ℕ_discrete d b'>') [
        | yes two ↦ head_two h more two
        | no three ↦ head_three h more three
      ]
    ],
  )

sound : (s : Bytes) → test_record_start s ≡ true → (32 ≤ length s) × IsRecord s
unfolding test_record_start
sound (a ∷ b ∷ c ∷ d ∷ e ∷ f ∷ g ∷ s) h = head_sound a b c d e f g s h
sound _ h = ground arith

complete : (s : Bytes) → 32 ≤ length s → IsRecord s → test_record_start s ≡ true
complete s len r =
    rw r.shape
      (head_complete r.pri r.rest r.digits r.at_least_one r.at_most_three (rw r.shape at len))

-- A text is taken for the start of a record exactly when it has at least 32 bytes and begins with
-- `<`, one to three decimal digits and `>1 `.
pub test_record_start_iff :
    (s : Bytes) → (test_record_start s ≡ true) ↔ ((32 ≤ length s) × IsRecord s)
test_record_start_iff s = (sound s, λ h. complete s h.0 h.1)
