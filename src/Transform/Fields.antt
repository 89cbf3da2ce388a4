-- ===== src/Transform/Fields.antt =====
-- What the transforms on fields leave behind: transform/ttruncate, transform/tdelfields; and lists
-- of transforms as one: transform/tblock.
use slog_agent.Base.{
  ℕ, zero, suc, ◌+◌, ◌-◌, ◌≤◌, ◌<◌, Bool, true, false, ◌||◌, List, [], ◌∷◌, ◌++◌, none, some, ◌≡◌,
  refl, ap, sym, ◌∙◌, arith, lt→ltb, leb, leb→le, Bool-cases, inl, inr, ◌==◌, if◌then◌else◌, length,
  get_or, set, take, drop, length-append, length-take, length-drop, take-append, take-append-drop,
  Bytes, All,
}
use slog_agent.Input.Parser.{LogRecord}
use slog_agent.Text.Utf8.{
  clean_utf8, overwrite_n_truncate, find_last_end_of_ascii, rune_length, to_valid_from,
  to_valid_utf8,
}
use slog_agent.Transform.Run.{
  Transform, Transforms, done, then_, Outcome, and_then, with_state, delete_fields, set_field,
  truncate_value, transform, run_transforms,
}

length-overwrite_n_truncate :
    (main : Bytes) (start : ℕ) (tail : Bytes)
    → length (overwrite_n_truncate main start tail) ≤ length main
unfolding overwrite_n_truncate
length-overwrite_n_truncate main start tail = omega (
  arith,
  length-append (take start main) (take (length main - start) tail),
  length-take start main,
  length-take (length main - start) tail,
)

length-clean_utf8 : (s : Bytes) → length (clean_utf8 s) ≤ length s
unfolding clean_utf8
length-clean_utf8 [] = omega arith
length-clean_utf8 (c ∷ s) =
    let e = find_last_end_of_ascii (c ∷ s) in
    length-overwrite_n_truncate (c ∷ s) e (to_valid_utf8 (drop e (c ∷ s)))

take_all : (n : ℕ) (xs : Bytes) → length xs ≤ n → take n xs ≡ xs
take_all zero [] h = refl
take_all (suc n) [] h = refl
take_all (suc n) (x ∷ xs) h = ap (◌∷◌ x) (take_all n xs (omega arith))
take_all zero (x ∷ xs) h = absurd (omega arith)

overwrite_n_truncate-append :
    (main rest tail : Bytes)
    → length tail ≤ length rest
    → overwrite_n_truncate (main ++ rest) (length main) tail ≡ main ++ tail
unfolding overwrite_n_truncate
overwrite_n_truncate-append main rest tail h =
    rw
      (
        take-append main rest,
        take_all (length (main ++ rest) - length main) tail
            (omega (arith, length-append main rest)),
      )
      refl

-- No ASCII byte.
abbrev pub NoAscii : Bytes → Type 0
NoAscii = All (λ c. 127 < c)

-- Nothing, or a text with an ASCII byte at its end.
abbrev pub EndsInAscii : Bytes → Type 0
EndsInAscii [] = Unit
EndsInAscii (c ∷ []) = c ≤ 127
EndsInAscii (c ∷ d ∷ s) = EndsInAscii (d ∷ s)

-- A text up to its last ASCII byte, and what is behind.
record IsCutAtAscii (s : Bytes) (n : ℕ) : Type 0 where
  cut_inside : n ≤ length s
  cut_front : EndsInAscii (take n s)
  cut_back : NoAscii (drop n s)

EndsInAscii-cons :
    (b n : ℕ) (s : Bytes)
    → suc n ≤ length s
    → EndsInAscii (take (suc n) s)
    → EndsInAscii (b ∷ take (suc n) s)
EndsInAscii-cons b n [] le h = absurd (omega arith)
EndsInAscii-cons b n (c ∷ s) le h = h

cut_step :
    (b : ℕ) (s : Bytes) (n : ℕ)
    → IsCutAtAscii s n
    → IsCutAtAscii (b ∷ s) (elim n [ zero ↦ if leb b 0x7F then 1 else 0 | suc m ↦ suc (suc m) ])
cut_step b s zero h = elim (Bool-cases (leb b 0x7F)) [
  | inl yes' ↦
      rw yes'
        (record { cut_inside = omega arith; cut_front = leb→le b 0x7F yes'; cut_back = h.cut_back })
  | inr no' ↦
      rw no'
        (record { cut_inside = omega arith; cut_front = tt; cut_back = (ground arith, h.cut_back) })
]
cut_step b s (suc m) h = record {
  cut_inside = omega (arith, h.cut_inside);
  cut_front = EndsInAscii-cons b m s h.cut_inside h.cut_front;
  cut_back = h.cut_back;
}

find_last_end-IsCutAtAscii : (s : Bytes) → IsCutAtAscii s (find_last_end_of_ascii s)
unfolding find_last_end_of_ascii
find_last_end-IsCutAtAscii [] = record { cut_inside = omega arith; cut_front = tt; cut_back = tt }
find_last_end-IsCutAtAscii (b ∷ s) =
    cut_step b s (find_last_end_of_ascii s) (find_last_end-IsCutAtAscii s)

length-valid_step :
    (c : ℕ) (s : Bytes) (n : ℕ)
    → ((k : ℕ) → length (to_valid_from k s) ≤ length s)
    → length (elim n [ zero ↦ to_valid_from zero s | suc m ↦ c ∷ to_valid_from m s ])
      ≤ suc (length s)
length-valid_step c s zero h = omega (arith, h zero)
length-valid_step c s (suc m) h = omega (arith, h m)

length-to_valid_from : (k : ℕ) (s : Bytes) → length (to_valid_from k s) ≤ length s
unfolding to_valid_from
length-to_valid_from k [] = omega arith
length-to_valid_from (suc k) (c ∷ s) = omega (arith, length-to_valid_from k s)
length-to_valid_from zero (c ∷ s) =
    length-valid_step c s (rune_length (c ∷ s)) (λ k. length-to_valid_from k s)

length-to_valid_utf8 : (s : Bytes) → length (to_valid_utf8 s) ≤ length s
unfolding to_valid_utf8
length-to_valid_utf8 s = length-to_valid_from 0 s

-- The cleaned text: what is behind the last ASCII byte without its invalid sequences.
clean_utf8_lem :
    (s : Bytes)
    → (let e = find_last_end_of_ascii s in clean_utf8 s ≡ take e s ++ to_valid_utf8 (drop e s))
unfolding clean_utf8
clean_utf8_lem [] = refl
clean_utf8_lem (c ∷ s) =
    let e = find_last_end_of_ascii (c ∷ s) in
    let tail = to_valid_utf8 (drop e (c ∷ s)) in
    ap (λ t. take e (c ∷ s) ++ t)
      (take_all (length (c ∷ s) - e) tail
        (omega (arith, length-to_valid_utf8 (drop e (c ∷ s)), length-drop e (c ∷ s))))

-- What becomes of a value that is cut at `k`.
pub record IsTruncated (k : ℕ) (suffix value out : Bytes) : Type 0 where
  pub front : Bytes
  pub back : Bytes
  pub cut_at : take k value ≡ front ++ back
  pub front_ascii : EndsInAscii front
  pub back_ascii : NoAscii back
  pub whole : out ≡ (front ++ to_valid_utf8 back) ++ suffix
  pub bounded : length out ≤ k + length suffix

truncate_value-clean :
    (k : ℕ) (suffix value : Bytes)
    → k + length suffix < length value
    → truncate_value k suffix value ≡ clean_utf8 (take k value) ++ suffix
unfolding truncate_value
truncate_value-clean k suffix value h =
    let trimmed = clean_utf8 (take k value) in
    rw (lt→ltb (k + length suffix) (length value) h) (
      overwrite_n_truncate-append trimmed (drop (length trimmed) value) suffix (
        omega (
          arith,
          length-clean_utf8 (take k value),
          length-take k value,
          length-drop (length trimmed) value,
        )))

-- A value that is longer than the limit and the suffix together becomes, of its bytes up to the
-- limit: those up to the last ASCII byte as they are, valid or not, then those behind, none of them
-- ASCII, without the sequences that `strings.ToValidUTF8` takes for invalid; and the whole suffix.
-- Its length is at most that of the limit and the suffix.
pub truncate_value-IsTruncated :
    (k : ℕ) (suffix value : Bytes)
    → k + length suffix < length value
    → IsTruncated k suffix value (truncate_value k suffix value)
truncate_value-IsTruncated k suffix value h =
    let s = take k value in
    let e = find_last_end_of_ascii s in
    let cut = find_last_end-IsCutAtAscii s in
    let same = truncate_value-clean k suffix value h in
    record {
      front = take e s;
      back = drop e s;
      cut_at = sym (take-append-drop e s);
      front_ascii = cut.cut_front;
      back_ascii = cut.cut_back;
      whole = same ∙ ap (λ t. t ++ suffix) (clean_utf8_lem s);
      bounded = omega (
        arith,
        ap length same,
        length-append (clean_utf8 s) suffix,
        length-clean_utf8 s,
        length-take k value,
      );
    }

get_or-set :
    (fields : List Bytes) (i j : ℕ)
    → get_or (set fields i []) j [] ≡ (if i == j then [] else get_or fields j [])
get_or-set [] i j = ground arith
get_or-set (x ∷ xs) zero zero = ground arith
get_or-set (x ∷ xs) zero (suc j) = ground arith
get_or-set (x ∷ xs) (suc i) zero = ground arith
get_or-set (x ∷ xs) (suc i) (suc j) = ground (arith, get_or-set xs i j)

abbrev pub listed : ℕ → List ℕ → Bool
listed i [] = false
listed i (loc ∷ locs) = loc == i || listed i locs

-- When the deletion of fields returns, exactly the listed fields are empty, and every other field is
-- as it was.
pub delete_fields_lem :
    (locs : List ℕ) (fields out : List Bytes) (i : ℕ)
    → delete_fields locs fields ≡ some out
    → get_or out i [] ≡ (if listed i locs then [] else get_or fields i [])
unfolding delete_fields set_field
delete_fields_lem [] fields out i e = ground arith
delete_fields_lem (loc ∷ locs) fields out i e =
    ground (arith, delete_fields_lem locs (set fields loc []) out i, get_or-set fields loc i)

abbrev pub append_all : Transforms → Transforms → Transforms
append_all done ys = ys
append_all (then_ t xs) ys = then_ t (append_all xs ys)

-- The second list after the outcome of the first.
abbrev pub run_second : Transforms → Outcome Transforms → Outcome Transforms
run_second ys none = none
run_second ys (some (false, record_, xs)) = some (false, record_, append_all xs ys)
run_second ys (some (true, record_, xs)) = with_state (append_all xs) (run_transforms ys record_)

with_state-with_state :
    {R S T : Type 0} (f : S → T) (g : R → S) (o : Outcome R)
    → with_state f (with_state g o) ≡ with_state (λ r. f (g r)) o
with_state-with_state f g none = refl
with_state-with_state f g (some (r, record_, s)) = refl

second-with_state :
    (ys : Transforms) (t : Transform) (o : Outcome Transforms)
    → with_state (then_ t) (run_second ys o) ≡ run_second ys (with_state (then_ t) o)
second-with_state ys t none = refl
second-with_state ys t (some (false, record_, xs)) = refl
second-with_state ys t (some (true, record_, xs)) =
    with_state-with_state (then_ t) (append_all xs) (run_transforms ys record_)

with_state_id : (o : Outcome Transforms) → o ≡ with_state (append_all done) o
with_state_id none = refl
with_state_id (some (r, record_, xs)) = refl

-- Two lists of transforms in one run as the first and, if that has not dropped the record, the
-- second on its record: the same result, record, new states and panics.
pub run_transforms-append :
    (xs ys : Transforms) (record_ : LogRecord)
    → run_transforms (append_all xs ys) record_ ≡ run_second ys (run_transforms xs record_)
unfolding run_transforms
run_transforms-append done ys record_ = with_state_id (run_transforms ys record_)
run_transforms-append (then_ t xs) ys record_ =
    elim (transform t record_)
      as (λ o.
        (and_then o λ result.
          if result.0
          then with_state (then_ (result.2)) (run_transforms (append_all xs ys) (result.1))
          else some (false, result.1, then_ (result.2) (append_all xs ys)))
        ≡ run_second ys (
            and_then o λ result.
              if result.0
              then with_state (then_ (result.2)) (run_transforms xs (result.1))
              else some (false, result.1, then_ (result.2) xs))) [
                | none ↦ refl
                | some (false, r, t') ↦ refl
                | some (true, r, t') ↦
                    ap (with_state (then_ t')) (run_transforms-append xs ys r)
                    ∙ second-with_state ys t' (run_transforms xs r)
              ]
