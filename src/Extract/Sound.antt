-- ===== src/Extract/Sound.antt =====
-- What an extraction takes out of a text: the text is made up of the boundaries, the tag behind the
-- label, and the rest.
use slog_agent.Base.{
  ℕ, zero, suc, ◌+◌, ◌-◌, ◌≤◌, true, false, [], ◌++◌, Option, none, some, ◌≡◌, ◌⊎◌, inl, inr, refl,
  ap, sym, ◌∙◌, subst, arith, ltb, ◌==◌, length, take, drop, drop-drop, drop_eq, take-append-drop,
  length-take, length-drop, Bytes, bytes_eq_iff, has_prefix, Bool-cases, append_assoc,
}
use slog_agent.Transform.Matcher.{has_suffix}
use slog_agent.Extract.Pattern.{CharTable, Position, from_start, from_end, StringExtractor}
use slog_agent.Extract.Label.{
  first_is_invalid, last_is_invalid, index_of, last_index_of, match_from_start, match_from_end,
  trim_control_chars_and_spaces, Extraction, passes, start_bounded, start_open, limit_start,
  at_start, extract_label_at_start, offset_end, end_bounded, end_open, at_end, extract_label_at_end,
  extract,
}
use slog_agent.Extract.Search.{
  has_prefix-split, has_prefix-drop, has_prefix-take, IsAt, index_of-IsAt, last_index_of-IsAt,
  AllValid, passes-start, passes-end, match_from_start-AllValid, match_from_start-le,
  match_from_start-none, match_from_end-AllValid, match_from_end-none, take-take_le, nil_of_short,
}

-- The text with a tag between its boundaries: at the start, with the rest behind it, or at the end.
abbrev pub joined : Position → Bytes → Bytes → Bytes → Bytes → Bytes
joined from_start left tag right rest = left ++ (tag ++ (right ++ rest))
joined from_end left tag right rest = rest ++ (left ++ (tag ++ right))

-- What a successful extraction means, for the text, the boundaries and the limit of the label.
pub record IsLabel (ex : StringExtractor) (text label rest : Bytes) : Type 0 where
  pub tag : Bytes
  pub made : text ≡ joined ex.position ex.left_bound tag ex.right_bound rest
  pub label_eq : label ≡ trim_control_chars_and_spaces tag
  pub valid : AllValid ex.valid_chars tag
  pub short : length tag ≤ ex.max_range

-- A failed extraction keeps the text; a panic needs a missing table.
abbrev pub Extracted : StringExtractor → Bytes → Extraction → Type 0
Extracted ex text none = ex.valid_chars ≡ none
Extracted ex text (some (label, rest)) = ((label ≡ []) × (rest ≡ text)) ⊎ IsLabel ex text label rest

IsAtIndex : Bytes → Bytes → Option ℕ → Type 0
IsAtIndex s sub none = Unit
IsAtIndex s sub (some i) = IsAt s sub i

not_ltb : (a b : ℕ) → ltb a b ≡ false → b ≤ a
not_ltb a b h = ground arith

index_of_limited :
    (m : ℕ) (s sub : Bytes) (i : ℕ)
    → index_of (limit_start m s) sub ≡ some i
    → (has_prefix (drop i s) sub ≡ true) × (i + length sub ≤ m) × (i + length sub ≤ length s)
index_of_limited m s sub i e = elim (Bool-cases (ltb m (length s))) [
  | inl long ↦
      (let (hit, room) = index_of-IsAt (take m s) sub i (rw long at e) in
        let size = length-take m s in
        (has_prefix-take i m s sub hit, omega (arith, room, size), omega (arith, room, size)))
  | inr short ↦
      (let (hit, room) = index_of-IsAt s sub i (rw short at e) in
        (hit, omega (arith, room, not_ltb m (length s) short), room))
]

module _ (text : Bytes) (left right : Bytes) (max : ℕ) (table : Option CharTable) where
  abbrev start_ex : StringExtractor
  start_ex = record {
    position = from_start;
    left_bound = left;
    right_bound = right;
    max_range = max;
    valid_chars = table;
  }

  start_bounded-Extracted :
      (s : Bytes) (o : Option ℕ)
      → text ≡ left ++ s
      → index_of (limit_start max s) right ≡ o
      → Extracted start_ex text (start_bounded text s right table o)
  start_bounded-Extracted s none e h = inl (refl, refl)
  start_bounded-Extracted s (some i) e h =
      let (hit, range, room) = index_of_limited max s right i h in
      let tag = take i s in
      elim (Bool-cases (passes table (length tag) (match_from_start tag table))) [
        | inr invalid ↦ rw invalid (inl (refl, refl))
        | inl all ↦ rw all (
            inr (record {
              tag = tag;
              made = e ∙ ap (◌++◌ left) (has_prefix-drop i s right hit);
              label_eq = refl;
              valid = passes-start table tag all;
              short = omega (arith, length-take i s, range);
            }))
      ]

  start_open-Extracted :
      (s : Bytes) (o : Option ℕ)
      → text ≡ left ++ s
      → right ≡ []
      → match_from_start (limit_start max s) table ≡ o
      → Extracted start_ex text (start_open text s o)
  start_open-Extracted s none e r h = match_from_start-none (limit_start max s) table h
  start_open-Extracted s (some zero) e r h = inl (refl, refl)
  start_open-Extracted s (some (suc n)) e r h =
      let n' = suc n in
      let (valid, range) = limited s n' h in
      inr (record {
        tag = take n' s;
        made =
            e
            ∙ ap (◌++◌ left)
                (sym (take-append-drop n' s) ∙ ap (λ x. take n' s ++ (x ++ drop n' s)) (sym r));
        label_eq = refl;
        valid = valid;
        short = omega (arith, length-take n' s, range);
      })
    where
      limited :
          (s : Bytes) (n : ℕ)
          → match_from_start (limit_start max s) table ≡ some n
          → AllValid table (take n s) × (n ≤ max)
      limited s n h = elim (Bool-cases (ltb max (length s))) [
        | inl long ↦
            (let h' = rw long at h in
              let le = match_from_start-le (take max s) table n h' in
              let range : n ≤ max = omega (arith, le, length-take max s) in
              (
                subst (AllValid table) (take-take_le n max s range)
                    (match_from_start-AllValid (take max s) table n h'),
                range,
              ))
        | inr short ↦
            (let h' = rw short at h in
              (
                match_from_start-AllValid s table n h',
                omega (arith, match_from_start-le s table n h', not_ltb max (length s) short),
              ))
      ]

  at_start-Extracted :
      (s : Bytes) → text ≡ left ++ s → Extracted start_ex text (at_start text s right max table)
  at_start-Extracted s e = elim (Bool-cases (first_is_invalid table s)) [
    | inl bad ↦ rw bad (inl (refl, refl))
    | inr fine ↦ elim (Bool-cases (ltb 0 (length right))) [
      | inl some_right ↦ rw (fine, some_right) (start_bounded-Extracted s _ e refl)
      | inr no_right ↦
          rw (fine, no_right) (start_open-Extracted s _ e (nil_of_short right no_right) refl)
    ]
  ]

  start-Extracted : Extracted start_ex text (extract_label_at_start text left right max table)
  unfolding extract_label_at_start
  start-Extracted = elim (Bool-cases (has_prefix text left)) [
    | inr other ↦ rw other (inl (refl, refl))
    | inl hit ↦
        rw hit (at_start-Extracted (drop (length left) text) (has_prefix-split text left hit).0)
  ]

  abbrev end_ex : StringExtractor
  end_ex = record {
    position = from_end;
    left_bound = left;
    right_bound = right;
    max_range = max;
    valid_chars = table;
  }

  offset_end_le : (s : Bytes) → (length s - offset_end max s ≤ max) × (offset_end max s ≤ length s)
  offset_end_le s = elim (Bool-cases (ltb max (length s))) [
    | inl long ↦ rw long (omega arith)
    | inr short ↦ rw short (omega (arith, not_ltb max (length s) short))
  ]

  end_bounded-Extracted :
      (s : Bytes) (o : Option ℕ)
      → text ≡ s ++ right
      → last_index_of (drop (offset_end max s) s) left ≡ o
      → Extracted end_ex text (end_bounded text s left (offset_end max s) table o)
  end_bounded-Extracted s none e h = inl (refl, refl)
  end_bounded-Extracted s (some i) e h =
      let off = offset_end max s in
      let (hit, room) = last_index_of-IsAt (drop off s) left i h in
      let (range, inside) = offset_end_le s in
      let at = i + off in
      let tag = drop (at + length left) s in
      let hit' : has_prefix (drop at s) left ≡ true =
        subst (λ t. has_prefix t left ≡ true)
          (drop-drop i off s ∙ drop_eq (off + i) at s (omega arith)) hit in
      elim (Bool-cases (passes table 0 (match_from_end tag table))) [
        | inr invalid ↦ rw invalid (inl (refl, refl))
        | inl all ↦ rw all (
            inr (record {
              tag = tag;
              made =
                  e
                  ∙ ap (λ x. x ++ right) (has_prefix-drop at s left hit')
                  ∙ append_assoc (take at s) (left ++ tag) right
                  ∙ ap (◌++◌ (take at s)) (append_assoc left tag right);
              label_eq = refl;
              valid = passes-end table tag all;
              short = omega (arith, length-drop (at + length left) s, range, inside);
            }))
      ]

  end_open-Extracted :
      (s : Bytes) (o : Option ℕ)
      → text ≡ s ++ right
      → left ≡ []
      → match_from_end (drop (offset_end max s) s) table ≡ o
      → Extracted end_ex text (end_open text s (offset_end max s) o)
  end_open-Extracted s none e l h = match_from_end-none (drop (offset_end max s) s) table h
  end_open-Extracted s (some k) e l h =
      let off = offset_end max s in
      let (range, inside) = offset_end_le s in
      elim (Bool-cases (off + k == length s)) [
        | inl empty ↦ rw empty (inl (refl, refl))
        | inr some_tag ↦ rw some_tag (
            inr (record {
              tag = drop (off + k) s;
              made =
                  e
                  ∙ ap (λ x. x ++ right) (sym (take-append-drop (off + k) s))
                  ∙ append_assoc (take (off + k) s) (drop (off + k) s) right
                  ∙ ap (λ x. take (off + k) s ++ (x ++ (drop (off + k) s ++ right))) (sym l);
              label_eq = refl;
              valid =
                  subst (AllValid table) (drop-drop k off s)
                    (match_from_end-AllValid (drop off s) table k h);
              short = omega (arith, length-drop (off + k) s, range, inside);
            }))
      ]

  at_end-Extracted :
      (s : Bytes) → text ≡ s ++ right → Extracted end_ex text (at_end text s left max table)
  at_end-Extracted s e = elim (Bool-cases (last_is_invalid table s)) [
    | inl bad ↦ rw bad (inl (refl, refl))
    | inr fine ↦ elim (Bool-cases (ltb 0 (length left))) [
      | inl some_left ↦ rw (fine, some_left) (end_bounded-Extracted s _ e refl)
      | inr no_left ↦ rw (fine, no_left) (end_open-Extracted s _ e (nil_of_short left no_left) refl)
    ]
  ]

  has_suffix-split :
      has_suffix text right ≡ true → text ≡ take (length text - length right) text ++ right
  unfolding has_suffix
  has_suffix-split h =
      let k = length text - length right in
      sym (take-append-drop k text)
      ∙ ap (◌++◌ (take k text)) ((bytes_eq_iff (drop k text) right).0 (ground arith))

  end-Extracted : Extracted end_ex text (extract_label_at_end text left right max table)
  unfolding extract_label_at_end
  end-Extracted = elim (Bool-cases (has_suffix text right)) [
    | inr other ↦ rw other (inl (refl, refl))
    | inl hit ↦
        rw hit (at_end-Extracted (take (length text - length right) text) (has_suffix-split hit))
  ]

-- An extraction either keeps the text, with an empty label; or the text is the rest and a tag between
-- the two boundaries, at the start or the end as the extractor says, the label is the tag without
-- control characters and spaces around it, every byte of the tag is valid, and the tag is within the
-- range. It panics only without a table of valid bytes.
pub extract-Extracted : (ex : StringExtractor) (text : Bytes) → Extracted ex text (extract ex text)
unfolding extract
extract-Extracted ex text = by_position ex.position
  where
    by_position :
        (p : Position)
        → Extracted (record ex { position = p }) text (extract (record ex { position = p }) text)
    by_position from_start =
        start-Extracted text ex.left_bound ex.right_bound ex.max_range ex.valid_chars
    by_position from_end =
        end-Extracted text ex.left_bound ex.right_bound ex.max_range ex.valid_chars
