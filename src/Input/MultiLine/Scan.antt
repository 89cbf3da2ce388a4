-- ===== src/Input/MultiLine/Scan.antt =====
-- The loop of `processBuffer`: it ends by its own test, and its cursor stays well-formed.
use mathlib.Core.List.{cons-ne-nil, concat-ne-nil}
use slog_agent.Base.{
  ℕ, zero, suc, ◌+◌, ◌-◌, ◌≤◌, ◌<◌, Bool, true, List, [], ◌∷◌, ◌++◌, none, some, ◌≡◌, ◌≢◌, ◌⊎◌, inl,
  inr, refl, sym, ap, ◌∙◌, arith, ◌==◌, if◌then◌else◌, length, drop, take, slice, slice-append-drop,
  drop-drop, drop_eq, take-append-drop, index_byte, index_byte-some, index_byte-none, append_assoc,
  Lacks, Bytes, Option-cases, length-drop, All, All-append,
}
use slog_agent.Input.MultiLine.{newline, last_index_byte, Cursor, scan_line, scan_loop}

-- Records as they stood in the stream, each with its newline.
unfoldable pub lines : List Bytes → Bytes
lines [] = []
lines (r ∷ rs) = r ++ newline ∷ lines rs

pub lines-append : (rs ss : List Bytes) → lines (rs ++ ss) ≡ lines rs ++ lines ss
unfolding lines
lines-append [] ss = refl
lines-append (r ∷ rs) ss = simp (lines-append rs ss, append_assoc)

lines_one : (r rest : Bytes) → lines (r ∷ []) ++ rest ≡ r ++ newline ∷ rest
unfolding lines
lines_one r rest = append_assoc r (newline ∷ []) rest

-- The text up to its first newline.
unfoldable pub first_line : Bytes → Bytes
first_line [] = []
first_line (c ∷ s) = if c == newline then [] else c ∷ first_line s

first_line-append : (s t : Bytes) → first_line (s ++ newline ∷ t) ≡ first_line s
unfolding first_line
first_line-append [] t = refl
first_line-append (c ∷ s) t = ground (arith, first_line-append s t)

first_line-Lacks : (s t : Bytes) → Lacks newline s → first_line (s ++ newline ∷ t) ≡ s
unfolding first_line
first_line-Lacks [] t h = refl
first_line-Lacks (c ∷ s) t h = ground (arith, first_line-Lacks s t)

-- A position at which a line begins behind position `from`.
abbrev pub LineStart : Bytes → ℕ → ℕ → Type 0
LineStart buffer from p =
    (p ≡ 0) ⊎ ((k : ℕ) × (p ≡ suc k) × (from ≤ k) × (drop k buffer ≡ newline ∷ drop p buffer))

module _ (test : Bytes → Bool) where
  -- The text begins with a line that passes the test.
  abbrev pub Starts : Bytes → Type 0
  Starts s = test (first_line s) ≡ true

  abbrev pub StartsBehindFirst : List Bytes → Type 0
  StartsBehindFirst [] = Unit
  StartsBehindFirst (r ∷ rs) = All Starts rs

  StartsBehindFirst-append :
      (rs : List Bytes) (r : Bytes)
      → StartsBehindFirst rs
      → (rs ≢ [] → Starts r)
      → StartsBehindFirst (rs ++ r ∷ [])
  StartsBehindFirst-append [] r h k = tt
  StartsBehindFirst-append (x ∷ rs) r h k =
      All-append Starts rs (r ∷ []) h (k (cons-ne-nil x rs), tt)

  pub record IsCursor (buffer : Bytes) (v : Cursor) : Type 0 where
    pub record_le : v.record_start ≤ v.search_start
    pub search_le : v.search_start ≤ length buffer
    pub line_start : LineStart buffer v.record_start v.search_start
    pub content : lines v.consumed ++ drop v.record_start buffer ≡ buffer
    pub record_head :
        (v.consumed ≡ []) × (v.record_start ≡ 0)
        ⊎ (v.consumed ≢ []) × (0 < v.record_start) × Starts (drop v.record_start buffer)
    pub heads : StartsBehindFirst v.consumed

-- What a newline found by `index_byte` says of the text.
found_newline :
    (s : Bytes) (rel : ℕ)
    → index_byte s newline ≡ some rel
    → (drop rel s ≡ newline ∷ drop (suc rel) s) × (take rel s ≡ first_line s)
found_newline s rel h =
    let (at, clear, _) = index_byte-some s newline rel h in
    (
      at,
      sym (first_line-Lacks (take rel s) (drop (suc rel) s) clear)
          ∙ ap first_line (sym (ap (λ t. take rel s ++ t) at) ∙ take-append-drop rel s),
    )

module _ (buffer : Bytes) (ss rel : ℕ)
    (found : index_byte (drop ss buffer) newline ≡ some rel) where
  next_newline :
      (drop (rel + ss) buffer ≡ newline ∷ drop (rel + ss + 1) buffer)
      × (slice buffer ss (rel + ss) ≡ first_line (drop ss buffer))
      × (rel + ss < length buffer)
  next_newline =
      let (at, line) = found_newline (drop ss buffer) rel found in
      let (_, _, bound) = index_byte-some (drop ss buffer) newline rel found in
      (
        drop_eq (rel + ss) (ss + rel) buffer (omega arith)
            ∙ sym (drop-drop rel ss buffer)
            ∙ at
            ∙ ap (◌∷◌ newline) (
                drop-drop (suc rel) ss buffer
                ∙ drop_eq (ss + suc rel) (rel + ss + 1) buffer (omega arith)),
        ap (λ n. take n (drop ss buffer)) (omega arith) ∙ line,
        omega (arith, length-drop ss buffer),
      )

module _ (test : Bytes → Bool) (buffer : Bytes) (v : Cursor) (ok : IsCursor test buffer v) where
  abbrev previous : Bytes
  previous = slice buffer v.record_start (v.search_start - 1)

  -- Behind the start of the stream, the record before the current line ends in a newline.
  previous_lem :
      0 < v.search_start
      → (previous ++ newline ∷ drop v.search_start buffer ≡ drop v.record_start buffer)
        × (v.record_start < v.search_start)
  previous_lem pos = elim ok.line_start [
    | inl zero_start ↦ absurd (omega arith)
    | inr (k, e, le, at) ↦ (
      sym (ap (λ t. previous ++ t) (drop_eq (v.search_start - 1) k buffer (omega arith) ∙ at))
          ∙ slice-append-drop buffer v.record_start (v.search_start - 1) (omega arith),
      omega arith,
    )
  ]

  module _ (rel : ℕ) (found : index_byte (drop v.search_start buffer) newline ≡ some rel) where
    abbrev next : ℕ
    next = rel + v.search_start

    next-LineStart : (from : ℕ) → from ≤ next → LineStart buffer from (next + 1)
    next-LineStart from h =
        inr (next, omega arith, h, (next_newline buffer v.search_start rel found).0)

    miss-IsCursor : IsCursor test buffer (record v { search_start = next + 1 })
    miss-IsCursor = record {
      record_le = omega (arith, ok.record_le);
      search_le = omega (arith, (next_newline buffer v.search_start rel found).2);
      line_start = next-LineStart v.record_start (omega (arith, ok.record_le));
      content = ok.content;
      record_head = ok.record_head;
      heads = ok.heads;
    }

    previous-Starts : 0 < v.search_start → v.consumed ≢ [] → Starts test previous
    previous-Starts pos some_before = elim ok.record_head [
      | inl (none_before, _) ↦ absurd (some_before none_before)
      | inr (_, _, head) ↦
          rw
            (sym (
              ap first_line (sym (previous_lem pos).0)
              ∙ first_line-append previous (drop v.search_start buffer)))
            head
    ]

    hit-IsCursor :
        0 < v.search_start
        → test (slice buffer v.search_start next) ≡ true
        → IsCursor test buffer (record {
          record_start = v.search_start;
          search_start = next + 1;
          consumed = v.consumed ++ previous ∷ [];
        })
    hit-IsCursor pos passed = record {
      record_le = omega arith;
      search_le = omega (arith, (next_newline buffer v.search_start rel found).2);
      line_start = next-LineStart v.search_start (omega arith);
      content =
          ap (λ t. t ++ drop v.search_start buffer) (lines-append v.consumed (previous ∷ []))
          ∙ append_assoc (lines v.consumed) (lines (previous ∷ [])) (drop v.search_start buffer)
          ∙ ap (λ t. lines v.consumed ++ t)
              (lines_one previous (drop v.search_start buffer) ∙ (previous_lem pos).0)
          ∙ ok.content;
      record_head = inr (
        concat-ne-nil previous v.consumed,
        pos,
        ap test (sym (next_newline buffer v.search_start rel found).1) ∙ passed,
      );
      heads = StartsBehindFirst-append test v.consumed previous ok.heads (previous-Starts pos);
    }

    scan_line-IsCursor : IsCursor test buffer (scan_line test buffer next v)
    unfolding scan_line
    scan_line-IsCursor = ground (arith, miss-IsCursor, hit-IsCursor)

scan_line-search_start :
    (test : Bytes → Bool) (buffer : Bytes) (next_end : ℕ) (v : Cursor)
    → (scan_line test buffer next_end v).search_start ≡ next_end + 1
unfolding scan_line
scan_line-search_start test buffer next_end v = ground arith

pub scan_loop-IsCursor :
    (test : Bytes → Bool) (fuel : ℕ) (buffer : Bytes) (v : Cursor)
    → IsCursor test buffer v
    → IsCursor test buffer (scan_loop test fuel buffer v)
unfolding scan_loop
scan_loop-IsCursor test zero buffer v ok = ok
scan_loop-IsCursor test (suc fuel) buffer v ok =
    elim (Option-cases (index_byte (drop v.search_start buffer) newline)) [
      | inl e ↦ rw (e, scan_loop) ok
      | inr (rel, e) ↦
          rw (e, scan_loop)
            (scan_loop-IsCursor test fuel buffer (scan_line test buffer (rel + v.search_start) v)
              (scan_line-IsCursor test buffer v ok rel e))
    ]

-- With fuel for the rest of the buffer the loop ends by its own test: no newline is left.
pub scan_loop-Lacks :
    (test : Bytes → Bool) (fuel : ℕ) (buffer : Bytes) (v : Cursor)
    → v.search_start ≤ length buffer
    → length buffer < fuel + v.search_start
    → Lacks newline (drop (scan_loop test fuel buffer v).search_start buffer)
unfolding scan_loop
scan_loop-Lacks test zero buffer v le h = absurd (omega arith)
scan_loop-Lacks test (suc fuel) buffer v le h =
    elim (Option-cases (index_byte (drop v.search_start buffer) newline)) [
      | inl e ↦ rw (e, scan_loop) (index_byte-none (drop v.search_start buffer) newline e)
      | inr (rel, e) ↦
          let line = scan_line test buffer (rel + v.search_start) v in
          let moved = scan_line-search_start test buffer (rel + v.search_start) v in
          let (_, _, bound) = next_newline buffer v.search_start rel e in
          rw (e, scan_loop)
            (scan_loop-Lacks test fuel buffer line (omega (arith, moved)) (omega (arith, moved)))
    ]

pub last_index_byte-none : (s : Bytes) (b : ℕ) → last_index_byte s b ≡ none → Lacks b s
unfolding last_index_byte
last_index_byte-none [] b h = tt
last_index_byte-none (c ∷ s) b h = ground (arith, last_index_byte-none s b)

-- What `bytes.LastIndexByte` finds.
pub last_index_byte-some :
    (s : Bytes) (b n : ℕ)
    → last_index_byte s b ≡ some n
    → (take n s ++ b ∷ drop (suc n) s ≡ s) × Lacks b (drop (suc n) s) × (n < length s)
unfolding last_index_byte
last_index_byte-some [] b n h = cc
last_index_byte-some (c ∷ s) b zero h =
    ground (arith, last_index_byte-none s b, last_index_byte-some s b zero)
last_index_byte-some (c ∷ s) b (suc n) h = ground (arith, last_index_byte-some s b n)
