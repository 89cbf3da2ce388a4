-- ===== src/Output/Event/Field.antt =====
-- A field with its key in the buffer, and one step behind another.
use slog_agent.Base.{
  ℕ, ◌+◌, ◌<◌, ◌≤◌, Bool, [], ◌++◌, Option, some, ◌==◌, ==_iff, if◌then◌else◌, length,
  length-append, length-drop, append_assoc, drop, drop-append, Bytes, ◌≡◌, refl, ap, sym, ◌∙◌,
  arith, Bool-cases, inl, inr,
}
use slog_agent.Input.Parser.{LogRecord}
use slog_agent.Transform.Run.{and_then}
use slog_agent.Msgpack.Writer.{Writer}
use slog_agent.Msgpack.Laws.{Writes, moved, joined}
use slog_agent.Output.Event.{Progress, encode_length_within, encode_rewritten}
use slog_agent.Output.Event.Value.{
  Adds, at, LawfulRewriter, length_header, encode_length_within-Writes,
}

length-length_header : (max m n : ℕ) → length (length_header max m) ≡ length (length_header max n)
length-length_header max m n = ground arith

length_header_le : (max n : ℕ) → length (length_header max n) ≤ 5
length_header_le max n = ground arith

-- The length behind the test whether it has to be written again.
patched_length :
    (max n : ℕ) (before tail : Bytes) (p : ℕ)
    → n ≤ max
    → max < 4294967296
    → (let buffer = before ++ (length_header max max ++ tail) in
        (q : ℕ) × ((if n == max
            then some (buffer, p)
            else encode_length_within max n buffer (length before))
          ≡ some (before ++ (length_header max n ++ tail), q)))
patched_length max n before tail p le h = elim (Bool-cases (n == max)) [
  | inl same ↦
      (let e = (==_iff n max).0 same in
        (p, rw same (ap (λ k. some (before ++ (length_header max k ++ tail), p)) (sym e))))
  | inr other ↦
      (let old = length_header max max ++ tail in
        let w =
          (encode_length_within-Writes max n le h).writes before old
            (omega (arith, length-append (length_header max max) tail)) in
        (
          length before + length (length_header max n),
          rw other (
              w
              ∙ ap
                  (λ s. some (
                    before ++ (length_header max n ++ s),
                    length before + length (length_header max n),
                  ))
                  (ap (λ k. drop k old) (length-length_header max n max)
                    ∙ drop-append (length_header max max) tail)),
        ))
]

-- A header and a text behind it, over one buffer.
header_text :
    (max : ℕ) (before out old : Bytes)
    → (let hdr = length_header max (length out) in
        before ++ (hdr ++ (out ++ drop (length out) (drop (length (length_header max max)) old)))
        ≡ before ++ ((hdr ++ out) ++ drop (length (hdr ++ out)) old))
header_text max before out old =
    let hdr = length_header max (length out) in
    sym (append_assoc before hdr _)
    ∙ ap (λ k. (before ++ hdr) ++ (out ++ drop (length out) (drop k old)))
        (length-length_header max max (length out))
    ∙ joined before hdr out old

pub at_same :
    {r : LogRecord} {b b' : Bytes} {p p' size size' : ℕ}
    → b ≡ b'
    → p ≡ p'
    → size ≡ size'
    → Path (Option Progress) (some (at r b p size)) (some (at r b' p' size'))
at_same {r} {b} {b'} {p} {p'} {size} {size'} eb ep es =
    ap (λ c. some (at r c p size)) eb
    ∙ ap (λ q. some (at r b' q size)) ep
    ∙ ap (λ k. some (at r b' p' k)) es

module _ {n : ℕ} (L : LawfulRewriter n) (value : Bytes) (r : LogRecord)
    (e : length r.fields ≡ n) where
  abbrev max : ℕ
  max = L.limit value r

  abbrev out : Bytes
  out = (L.text value r).0

  pub encode_rewritten-Adds :
      max < 4294967296
      → Adds
          (encode_rewritten L.interface value)
          r
          (L.text value r).1
          (5 + max)
          (length_header max (length out) ++ out)
          1
  unfolding encode_rewritten
  encode_rewritten-Adds h = record {
    fits = omega (
      arith,
      length_header_le max (length out),
      L.within value r e,
      length-append (length_header max (length out)) out,
    );
    adds = λ before old size room.
        (let hdr = length_header max max in
          let mid = drop (length hdr) old in
          let tail = out ++ drop (length out) mid in
          let le = L.within value r e in
          let first =
            (encode_length_within-Writes max max (omega arith) h).writes before old
              (omega (arith, length_header_le max max)) in
          let second =
            moved (L.interface.write_field_body value r) before hdr mid
            ∙ L.writes value r e (before ++ hdr) mid
                (omega (arith, length_header_le max max, length-drop (length hdr) old))
            ∙ ap (λ s. some (s, length out, (L.text value r).1)) (append_assoc before hdr tail) in
          let (q, third) =
            patched_length max (length out) before tail (length before + length hdr) le h in
          rw (L.announces value r e, first, second, third)
            (at_same (header_text max before out old)
              (omega (
                arith,
                length-length_header max max (length out),
                length-append (length_header max (length out)) out,
              ))
              refl));
  }

pub Adds-as :
    {f g : Progress → Option Progress} {r : LogRecord} {u : Bool} {need k : ℕ} {enc : Bytes}
    → ((s : Progress) → f s ≡ g s)
    → Adds g r u need enc k
    → Adds f r u need enc k
Adds-as same h = record {
  fits = h.fits;
  adds = λ before old size room. same _ ∙ h.adds before old size room;
}

pub Adds-wider :
    {f : Progress → Option Progress} {r : LogRecord} {u : Bool} {m n k k' : ℕ} {enc : Bytes}
    → Adds f r u m enc k
    → m ≤ n
    → k ≡ k'
    → Adds f r u n enc k'
Adds-wider h le e = record {
  fits = omega (arith, h.fits);
  adds = λ before old size room.
      h.adds before old size (omega arith) ∙ at_same refl refl (omega arith);
}

-- Nothing, and one step behind another.
pub Adds-done : (r : LogRecord) → Adds some r r.unescaped 0 [] 0
Adds-done r = record {
  fits = omega arith;
  adds = λ before old size room. at_same refl (omega arith) (omega arith);
}

pub Adds-then :
    {f g : Progress → Option Progress} {r : LogRecord} {u u' : Bool} {m n k k' : ℕ} {e e' : Bytes}
    → Adds f r u m e k
    → Adds g (record r { unescaped = u }) u' n e' k'
    → Adds (λ s. and_then (f s) g) r u' (m + n) (e ++ e') (k + k')
Adds-then {f} {g} {r} {u} {u'} {m} {n} {k} {k'} {e} {e'} h h' = record {
  fits = omega (arith, h.fits, h'.fits, length-append e e');
  adds = λ before old size room.
      (let mid = drop (length e) old in
        let first = h.adds before old size (omega arith) in
        let second =
          h'.adds (before ++ e) mid (size + k)
            (omega (arith, h.fits, length-drop (length e) old)) in
        ap (λ o. and_then o g) first
        ∙ moved (λ b p. g (at (record r { unescaped = u }) b p (size + k))) before e mid
        ∙ second
        ∙ at_same (joined before e e' old)
            (omega (arith, length-append before e, length-append e e')) (omega arith));
}

-- A writer as a step that counts `k` entries.
pub Writes-Adds :
    {w : Writer} {need : ℕ} {enc : Bytes} (r : LogRecord) (k : ℕ)
    → Writes w need enc
    → Adds
        (λ s. and_then (w s.buffer s.position) λ out.
          some (record s { buffer = out.0; position = out.1; root_map_size = s.root_map_size + k }))
        r
        r.unescaped
        need
        enc
        k
Writes-Adds {w} {need} {enc} r k h = record {
  fits = h.fits;
  adds = λ before old size room.
      ap (λ o. and_then o λ out. some (at r (out.0) (out.1) (size + k))) (h.writes before old room);
}

-- A writer, which counts nothing, in front of a step.
pub Writes-then :
    {w : Writer} {g : Progress → Option Progress} {r : LogRecord} {u : Bool} {m n k : ℕ}
    {e e' : Bytes}
    → Writes w m e
    → Adds g r u n e' k
    → Adds
        (λ s.
          and_then (w s.buffer s.position) λ out. g (record s { buffer = out.0; position = out.1 }))
        r
        u
        (m + n)
        (e ++ e')
        k
Writes-then {w} {g} {r} {u} {m} {n} {k} {e} {e'} h h' = record {
  fits = omega (arith, h.fits, h'.fits, length-append e e');
  adds = λ before old size room.
      (let mid = drop (length e) old in
        let first = h.writes before old (omega arith) in
        let second =
          h'.adds (before ++ e) mid size (omega (arith, h.fits, length-drop (length e) old)) in
        ap (λ o. and_then o λ out. g (at r (out.0) (out.1) size)) first
        ∙ moved (λ b p. g (at r b p size)) before e mid
        ∙ second
        ∙ at_same (joined before e e' old)
            (omega (arith, length-append before e, length-append e e')) refl);
}
