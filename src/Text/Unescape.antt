-- ===== src/Text/Unescape.antt =====
-- util/stringunescape and the syslog unescaper of base/bsupport/unescape.go.
use slog_agent.Base.{
  ◌⊎◌, ℕ, zero, suc, ◌≤◌, ◌<◌, List, [], ◌∷◌, ◌++◌, Option, none, some, ◌≡◌, refl, ap, sym, ◌∙◌,
  arith, ◌==◌, ==_iff, if◌then◌else◌, length, length-drop, take, drop, take-append-drop, index_byte,
  index_byte-some, index_byte-none, Lacks, Bytes, inl, inr,
}

-- `escapable` is the map of 256 bytes; 0 stands for a byte that has no entry.
pub record Unescaper : Type 0 where
  pub escape_char : ℕ
  pub escapable : ℕ → ℕ

unfoldable pub map_char : List (ℕ × ℕ) → ℕ → ℕ
map_char [] c = 0
map_char ((key, val) ∷ mapping) c = if key == c then val else map_char mapping c

unfoldable pub new_unescaper : ℕ → List (ℕ × ℕ) → Unescaper
unfolding map_char
new_unescaper escape_char mapping = record {
  escape_char = escape_char;
  escapable = λ c. if c == escape_char then escape_char else map_char mapping c;
}

-- `\b`, `\f`, `\n`, `\r` and `\t`.
unfoldable pub new_syslog_unescaper : Unescaper
unfolding new_unescaper
new_syslog_unescaper =
    new_unescaper b'\\' ((b'b', 8) ∷ (b'f', 12) ∷ (b'n', 10) ∷ (b'r', 13) ∷ (b't', 9) ∷ [])

unfoldable pub find_first : Unescaper → Bytes → Option ℕ
find_first e str = index_byte str e.escape_char

-- One escaped byte.
unfoldable pub escaped : Unescaper → ℕ → Bytes
escaped e val = if e.escapable val == 0 then e.escape_char ∷ val ∷ [] else e.escapable val ∷ []

abbrev or_length : Bytes → Option ℕ → ℕ
or_length s none = length s
or_length s (some n) = n

-- The number of bytes in front of the next escape byte.
unfoldable pub chars_before : Unescaper → Bytes → ℕ
chars_before e s = or_length s (index_byte s e.escape_char)

-- The loop of `RunToBuffer` on what is left of the source, from an escape byte on; fuel counts its
-- rounds. What is left at the end is at most one byte.
unfoldable pub run_rest : ℕ → Unescaper → Bytes → Bytes
unfolding escaped chars_before
run_rest (suc fuel) e (c ∷ val ∷ s) =
    escaped e val ++ (take (chars_before e s) s ++ run_rest fuel e (drop (chars_before e s) s))
run_rest _ e s = s

unfoldable pub run_to_buffer : Unescaper → Bytes → ℕ → Bytes
unfolding run_rest
run_to_buffer e src first = take first src ++ run_rest (length src) e (drop first src)

abbrev pub run_found : Unescaper → Bytes → Option ℕ → Bytes
run_found e src none = src
run_found e src (some first) = run_to_buffer e src first

unfoldable pub run : Unescaper → Bytes → Bytes
unfolding find_first
run e src = run_found e src (find_first e src)

-- The meaning of escapes, byte by byte: an escape byte takes the next byte with it.
unfoldable pub decode : Unescaper → Bytes → Bytes
unfolding escaped
decode e [] = []
decode e (c ∷ []) = c ∷ []
decode e (c ∷ val ∷ s) =
    if c == e.escape_char then escaped e val ++ decode e s else c ∷ decode e (val ∷ s)

decode-append :
    (e : Unescaper) (xs ys : Bytes)
    → Lacks e.escape_char xs
    → decode e (xs ++ ys) ≡ xs ++ decode e ys
unfolding decode
decode-append e [] ys h = refl
decode-append e (x ∷ []) [] h = refl
decode-append e (x ∷ []) (y ∷ ys) (h, _) = ground arith
decode-append e (x ∷ x' ∷ xs) ys (h, hs) = ground (arith, decode-append e (x' ∷ xs) ys hs)

take-length : (s : Bytes) → take (length s) s ≡ s
take-length [] = refl
take-length (c ∷ s) = ap (◌∷◌ c) (take-length s)

drop-length : (s : Bytes) → drop (length s) s ≡ []
drop-length [] = refl
drop-length (c ∷ s) = drop-length s

-- What is cut off has no escape byte, and nothing or an escape byte follows.
abbrev IsSplit : ℕ → Bytes → ℕ → Type 0
IsSplit b s n = Lacks b (take n s) × ((drop n s ≡ []) ⊎ ((t : Bytes) × (drop n s ≡ b ∷ t)))

or_length-IsSplit :
    (b : ℕ) (s : Bytes) (o : Option ℕ) → index_byte s b ≡ o → IsSplit b s (or_length s o)
or_length-IsSplit b s none miss =
    (rw (take-length s) (index_byte-none s b miss), inl (drop-length s))
or_length-IsSplit b s (some n) hit =
    let (rest, lacks, room) = index_byte-some s b n hit in (lacks, inr (drop (suc n) s, rest))

chars_before-IsSplit : (e : Unescaper) (s : Bytes) → IsSplit e.escape_char s (chars_before e s)
unfolding chars_before
chars_before-IsSplit e s = or_length-IsSplit e.escape_char s (index_byte s e.escape_char) refl

run_rest_nil : (fuel : ℕ) (e : Unescaper) → run_rest fuel e [] ≡ []
unfolding run_rest
run_rest_nil zero e = refl
run_rest_nil (suc fuel) e = refl

decode_escape :
    (e : Unescaper) (val : ℕ) (s : Bytes)
    → decode e (e.escape_char ∷ val ∷ s) ≡ escaped e val ++ decode e s
unfolding decode
decode_escape e val s = ground (arith, ==_iff e.escape_char e.escape_char)

decode_split :
    (e : Unescaper) (n : ℕ) (s : Bytes)
    → Lacks e.escape_char (take n s)
    → decode e s ≡ take n s ++ decode e (drop n s)
decode_split e n s h =
    ap (decode e) (sym (take-append-drop n s)) ∙ decode-append e (take n s) (drop n s) h

decode_nil : (e : Unescaper) → decode e [] ≡ []
unfolding decode
decode_nil e = refl

decode_one : (e : Unescaper) → e.escape_char ∷ [] ≡ decode e (e.escape_char ∷ [])
unfolding decode
decode_one e = refl

decode_plain : (e : Unescaper) (s : Bytes) → Lacks e.escape_char s → decode e s ≡ s
unfolding decode
decode_plain e [] h = refl
decode_plain e (c ∷ []) h = refl
decode_plain e (c ∷ d ∷ s) (h, hs) = ground (arith, decode_plain e (d ∷ s) hs)

length-decode : (e : Unescaper) (s : Bytes) → length (decode e s) ≤ length s
unfolding decode escaped
length-decode e [] = omega arith
length-decode e (c ∷ []) = omega arith
length-decode e (c ∷ val ∷ s) = ground (arith, length-decode e s, length-decode e (val ∷ s))

run_rest-decode :
    (fuel : ℕ) (e : Unescaper) (t : Bytes)
    → length t < fuel
    → run_rest fuel e (e.escape_char ∷ t) ≡ decode e (e.escape_char ∷ t)
unfolding run_rest
run_rest-decode zero e t h = absurd (omega arith)
run_rest-decode (suc fuel) e [] h = decode_one e
run_rest-decode (suc fuel) e (val ∷ s) h =
    let n = chars_before e s in
    let (lacks, after) = chars_before-IsSplit e s in
    ap (λ r. escaped e val ++ (take n s ++ r))
      (elim after [
        | inl none_left ↦
            ap (run_rest fuel e) none_left
            ∙ run_rest_nil fuel e
            ∙ sym (ap (decode e) none_left ∙ decode_nil e)
        | inr (t, again) ↦
            ap (run_rest fuel e) again
            ∙ run_rest-decode fuel e t (omega (arith, ap length again, length-drop n s))
            ∙ sym (ap (decode e) again)
      ])
    ∙ ap (◌++◌ (escaped e val)) (sym (decode_split e n s lacks))
    ∙ sym (decode_escape e val s)

run_found-decode :
    (e : Unescaper) (src : Bytes) (o : Option ℕ)
    → index_byte src e.escape_char ≡ o
    → run_found e src o ≡ decode e src
unfolding run_to_buffer
run_found-decode e src none miss = sym (decode_plain e src (index_byte-none src e.escape_char miss))
run_found-decode e src (some n) hit =
    let (rest, lacks, room) = index_byte-some src e.escape_char n hit in
    ap (◌++◌ (take n src)) (
      ap (run_rest (length src) e) rest
      ∙ run_rest-decode (length src) e (drop (suc n) src) (omega (arith, length-drop (suc n) src))
      ∙ sym (ap (decode e) rest))
    ∙ sym (decode_split e n src lacks)

-- Unescaping a text by searching for escape bytes and copying what stands between them gives the
-- same as reading it byte by byte, where an escape byte takes the next byte with it: a mapped byte
-- becomes its image, any other stays with its escape byte, and an escape byte at the end stays.
pub run-decode : (e : Unescaper) (src : Bytes) → run e src ≡ decode e src
unfolding run find_first
run-decode e src = run_found-decode e src (index_byte src e.escape_char) refl

-- Unescaping never makes a text longer, so a buffer of the length of the source is large enough.
pub length-run : (e : Unescaper) (src : Bytes) → length (run e src) ≤ length src
length-run e src = rw (run-decode e src) (length-decode e src)
