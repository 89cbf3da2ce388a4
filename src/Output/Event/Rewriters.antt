-- ===== src/Output/Event/Rewriters.antt =====
-- The rewriters of Output/Rewrite behind the interface that the serializer uses.
use slog_agent.Base.{
  ℕ, ◌≤◌, Bool, false, [], ◌++◌, Option, none, some, length, drop, Bytes, ◌≡◌, refl, ap, ◌∙◌, sym,
  subst, arith,
}
use slog_agent.Input.Parser.{LogRecord}
use slog_agent.Transform.Run.{and_then}
use slog_agent.Msgpack.Writer.{copy_in}
use slog_agent.Msgpack.Laws.{copy_in-Writes}
use slog_agent.Output.Rewrite.{
  LogRewriter, RewriterFits, max_field_length, write_field_body, write_field_body-max_field_length,
}
use slog_agent.Output.Event.{RewriterInterface}
use slog_agent.Output.Event.Value.{LawfulRewriter}

-- A rewriter that copies what it writes to the buffer.
abbrev pub as_interface : LogRewriter → RewriterInterface
as_interface w = record {
  max_field_length = max_field_length w;
  write_field_body = λ value r buffer position.
      and_then (write_field_body w value r)
        λ out. and_then (copy_in (out.0) buffer position) λ at. some (at.0, length (out.0), out.1);
}

abbrev pub limit_or : Option ℕ → ℕ
limit_or none = 0
limit_or (some limit) = limit

abbrev pub text_or : Option (Bytes × Bool) → Bytes × Bool
text_or none = ([], false)
text_or (some text) = text

module _ (w : LogRewriter) (n : ℕ) (fits : RewriterFits n w) (value : Bytes) (r : LogRecord)
    (e : length r.fields ≡ n) where
  written :
      (out : Bytes × Bool) × (limit : ℕ) × (write_field_body w value r ≡ some out)
      × (max_field_length w value r ≡ some limit)
      × (length (out.0) ≤ limit)
  written = write_field_body-max_field_length w value r (subst (λ k. RewriterFits k w) (sym e) fits)

  pub limit-found : max_field_length w value r ≡ some (limit_or (max_field_length w value r))
  limit-found = rw (written.3) refl

  text-found : write_field_body w value r ≡ some (text_or (write_field_body w value r))
  text-found = rw (written.2) refl

  pub text-within :
      length (text_or (write_field_body w value r)).0 ≤ limit_or (max_field_length w value r)
  text-within = rw (written.2, written.3) (written.4)

  pub writes-text :
      (before old : Bytes)
      → limit_or (max_field_length w value r) ≤ length old
      → (let out = text_or (write_field_body w value r) in
          (as_interface w).write_field_body value r (before ++ old) (length before)
          ≡ some (before ++ (out.0 ++ drop (length (out.0)) old), length (out.0), out.1))
  writes-text before old room =
      let out = text_or (write_field_body w value r) in
      ap
        (λ o. and_then o λ out'.
          and_then (copy_in (out'.0) (before ++ old) (length before))
            λ at. some (at.0, length (out'.0), out'.1))
        text-found
      ∙ ap (λ o. and_then o λ at. some (at.0, length (out.0), out.1))
          ((copy_in-Writes (out.0)).writes before old (omega (arith, text-within)))

abbrev pub lawful_rewriter : (w : LogRewriter) (n : ℕ) → RewriterFits n w → LawfulRewriter n
lawful_rewriter w n fits = record {
  interface = as_interface w;
  limit = λ value r. limit_or (max_field_length w value r);
  text = λ value r. text_or (write_field_body w value r);
  announces = limit-found w n fits;
  within = text-within w n fits;
  writes = writes-text w n fits;
}
