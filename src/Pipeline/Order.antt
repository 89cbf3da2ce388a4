-- ===== src/Pipeline/Order.antt =====
-- What the outputs of a worker get: every record that passes, in order, and nothing else. An output
-- gets a record as the serializers of the outputs in front of it have left it.
use slog_agent.Base.{
  suc, ◌+◌, true, false, List, [], ◌∷◌, ◌++◌, none, some, ◌≡◌, refl, ap, sym, subst, ◌∙◌, arith,
  map, append_assoc, append-nil, Bytes, All, length,
}
use slog_agent.Input.Parser.{LogRecord}
use slog_agent.Transform.Run.{Transforms, Outcome, run_transforms}
use slog_agent.Pipeline.Worker.{
  streams_of, IsChunkMaker, Output, after_chunk, write_record, flush_chunk, LogProcessingWorker,
  on_record, on_input, on_stop,
}

-- The records that pass, as the transforms leave them, one after another.
unfoldable pub passing : Transforms → List LogRecord → List LogRecord
unfolding run_transforms
passing ts [] = []
passing ts (r ∷ rs) = elim (run_transforms ts r) [
  | none ↦ []
  | some (true, out, ts') ↦ out ∷ passing ts' rs
  | some (false, out, ts') ↦ passing ts' rs
]

none-some : {A : Type 0} {a : A} → none ≡ some a → ⊥
none-some h = cc

some_inj : {A : Type 0} {a b : A} → some a ≡ some b → a ≡ b
some_inj h = cc

passing_pass :
    (ts ts' : Transforms) (r out : LogRecord) (rs : List LogRecord)
    → run_transforms ts r ≡ some (true, out, ts')
    → passing ts (r ∷ rs) ≡ out ∷ passing ts' rs
unfolding passing
passing_pass ts ts' r out rs e = rw (e, passing) refl

passing_drop :
    (ts ts' : Transforms) (r out : LogRecord) (rs : List LogRecord)
    → run_transforms ts r ≡ some (false, out, ts')
    → passing ts (r ∷ rs) ≡ passing ts' rs
unfolding passing
passing_drop ts ts' r out rs e = rw (e, passing) refl

module _ {S : Type 0} (buffered : S → List Bytes) where
  -- The streams that an output has got: accepted, then buffered.
  abbrev pub got : Output S → List Bytes
  got o = o.accepted ++ buffered o.state

  abbrev pub Makers : List (Output S) → Type 0
  Makers = All (λ o. IsChunkMaker buffered o.ops)

  -- Each output has got the streams of the records `rs` behind what it had. An output gets a record
  -- as the outputs before it have left it.
  abbrev pub Wrote : List LogRecord → List (Output S) → List (Output S) → Type 0
  Wrote rs [] [] = Unit
  Wrote rs (o ∷ os) (o' ∷ os') =
      (got o' ≡ got o ++ map (λ r. (o.ops.serialize_record r).0) rs)
      × Wrote (map (λ r. (o.ops.serialize_record r).1) rs) os os'
  Wrote rs _ _ = ⊥

  Wrote-nil : (os : List (Output S)) → Wrote [] os os
  Wrote-nil [] = tt
  Wrote-nil (o ∷ os) = (sym (append-nil (got o)), Wrote-nil os)

  got-after_chunk :
      (o : Output S) (b : Bytes)
      → IsChunkMaker buffered o.ops
      → got (after_chunk o (o.ops.write_stream o.state b)) ≡ got o ++ b ∷ []
  got-after_chunk o b law =
      let out = o.ops.write_stream o.state b in
      append_assoc o.accepted (streams_of (out.1)) (buffered (out.0))
      ∙ ap (◌++◌ o.accepted) (law.write_law o.state b)
      ∙ sym (append_assoc o.accepted (buffered o.state) (b ∷ []))

  Wrote-cons :
      (r : LogRecord) (rs : List LogRecord) (os os' : List (Output S))
      → Makers os
      → Wrote rs (write_record r os) os'
      → Wrote (r ∷ rs) os os'
  unfolding write_record
  Wrote-cons r rs [] [] m w = tt
  Wrote-cons r rs [] (o' ∷ os') m w = w
  Wrote-cons r rs (o ∷ os) [] m w = w
  Wrote-cons r rs (o ∷ os) (o' ∷ os') (law, m) (e, w) =
      let b = (o.ops.serialize_record r).0 in
      let bs = map (λ r. (o.ops.serialize_record r).0) rs in
      (
        e ∙ ap (λ x. x ++ bs) (got-after_chunk o b law) ∙ append_assoc (got o) (b ∷ []) bs,
        Wrote-cons (o.ops.serialize_record r).1 (map (λ r. (o.ops.serialize_record r).1) rs) os os'
            m w,
      )

  write_record-Makers :
      (r : LogRecord) (os : List (Output S)) → Makers os → Makers (write_record r os)
  unfolding write_record
  write_record-Makers r [] m = tt
  write_record-Makers r (o ∷ os) (law, m) =
      (law, write_record-Makers (o.ops.serialize_record r).1 os m)

  -- The counts and the outputs behind some input.
  pub record IsServed (rs : List LogRecord) (w w' : LogProcessingWorker S) : Type 0 where
    pub wrote : Wrote (passing w.transform_list rs) w.output_list w'.output_list
    pub counts_passed : w'.passed ≡ w.passed + length (passing w.transform_list rs)
    pub counts_all : w'.passed + w'.dropped ≡ w.passed + w.dropped + length rs

  on_input_one :
      (r : LogRecord) (rs : List LogRecord) (w w' : LogProcessingWorker S) (o : Outcome Transforms)
      → ((w : LogProcessingWorker S)
          → Makers w.output_list
          → on_input rs w ≡ some w'
          → IsServed rs w w')
      → run_transforms w.transform_list r ≡ o
      → Makers w.output_list
      → on_input (r ∷ rs) w ≡ some w'
      → IsServed (r ∷ rs) w w'
  unfolding on_input on_record passing
  on_input_one r rs w w' none ih e m h = absurd (none-some (rw e at h))
  on_input_one r rs w w' (some (false, out, ts)) ih e m h =
      let k = ih (record w { transform_list = ts; dropped = suc w.dropped }) m (rw e at h) in
      let p = passing_drop w.transform_list ts r out rs e in
      record {
        wrote = rw p k.wrote;
        counts_passed = rw p k.counts_passed;
        counts_all = omega (arith, k.counts_all);
      }
  on_input_one r rs w w' (some (true, out, ts)) ih e m h =
      let k =
        ih
          (record w {
            transform_list = ts;
            output_list = write_record out w.output_list;
            passed = suc w.passed;
          })
          (write_record-Makers out w.output_list m) (rw e at h) in
      let p = passing_pass w.transform_list ts r out rs e in
      record {
        wrote = rw p (Wrote-cons out (passing ts rs) w.output_list w'.output_list m k.wrote);
        counts_passed = rw p (omega (arith, k.counts_passed));
        counts_all = omega (arith, k.counts_all);
      }

  -- For chunk makers that keep what they buffer, and any records on which no transform panics: the
  -- first output gets, behind what it had, exactly the records that the transforms pass, as they
  -- leave them, serialized and in order; each further output gets the same records in the same way,
  -- but each record as the serializer of the output in front of it has left it. The passed records
  -- are counted as such, and every record is counted once.
  pub on_input-IsServed :
      (rs : List LogRecord) (w w' : LogProcessingWorker S)
      → Makers w.output_list
      → on_input rs w ≡ some w'
      → IsServed rs w w'
  unfolding on_input passing
  on_input-IsServed [] w w' m h = subst (IsServed [] w) (some_inj h) (record {
    wrote = Wrote-nil w.output_list;
    counts_passed = omega arith;
    counts_all = omega arith;
  })
  on_input-IsServed (r ∷ rs) w w' m h =
      on_input_one r rs w w' (run_transforms w.transform_list r) (λ w. on_input-IsServed rs w w')
        refl m h

  -- Nothing is left in a chunk maker.
  abbrev pub Flushed : List (Output S) → List (Output S) → Type 0
  Flushed [] [] = Unit
  Flushed (o ∷ os) (o' ∷ os') = (o'.accepted ≡ got o) × (buffered o'.state ≡ []) × Flushed os os'
  Flushed _ _ = ⊥

  flush_chunk-Flushed : (os : List (Output S)) → Makers os → Flushed os (flush_chunk os)
  unfolding flush_chunk
  flush_chunk-Flushed [] m = tt
  flush_chunk-Flushed (o ∷ os) (law, m) = (
    ap (◌++◌ o.accepted) (law.flush_law o.state),
    law.empty_law o.state,
    flush_chunk-Flushed os m,
  )

  -- For chunk makers that keep what they buffer: at the stop of a worker, everything that an output has got and still buffers goes into accepted
  -- chunks, in order, and its buffer is empty.
  pub on_stop-Flushed :
      (w : LogProcessingWorker S)
      → Makers w.output_list
      → Flushed w.output_list (on_stop w).output_list
  unfolding on_stop
  on_stop-Flushed w m = flush_chunk-Flushed w.output_list m
