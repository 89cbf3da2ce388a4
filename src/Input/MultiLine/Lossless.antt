-- ===== src/Input/MultiLine/Lossless.antt =====
-- Cutting the stream into records loses no byte, and cuts only before a tested line.
use slog_agent.Base.{
  suc, ◌+◌, Bool, false, ◌&&◌, [], ◌∷◌, ◌++◌, ◌≡◌, ◌≢◌, ◌⊎◌, inl, inr, refl, sym, arith, ltb,
  if◌then◌else◌, length, drop_eq, take, append-nil, Bytes, Bool-cases, Option-cases, Lacks,
}
use slog_agent.Input.MultiLine.{
  newline, Outcome, Reader, process_buffer, read, split_buffer, flush, last_index_byte,
}
use slog_agent.Input.MultiLine.Scan.{
  lines, last_index_byte-some, last_index_byte-none, Starts, StartsBehindFirst,
}
use slog_agent.Input.MultiLine.Invariant.{
  IsValid, check_overflow_cases, split, split_lem, split_records, stop-IsCursor,
}

-- The records of an outcome and its buffered rest are a cut of the text.
pub record IsCut (test : Bytes → Bool) (text : Bytes) (o : Outcome) : Type 0 where
  pub content : lines o.1 ++ o.0.buffered ≡ text
  pub heads : StartsBehindFirst test o.1
  pub rest_head : o.1 ≢ [] → Starts test o.0.buffered

empty_lem : (s : Bytes) → ltb 0 (length s) ≡ false → s ≡ []
empty_lem [] h = refl
empty_lem (c ∷ s) h = ground arith

module _ (test : Bytes → Bool) (r : Reader) (valid : IsValid r) (block : Bytes) where
  split_buffer-IsCut : IsCut test (r.buffered ++ block) (split_buffer test r (r.buffered ++ block))
  split_buffer-IsCut =
      let c = stop-IsCursor test r valid block in
      let (buffered, _, _, _) = split_lem test r valid block in
      let records = split_records test r valid block in
      record {
        content = rw (records, buffered) c.content;
        heads = rw records c.heads;
        rest_head =
            rw (records, buffered)
              (λ some_cut. elim c.record_head [
                | inl (no_cut, _) ↦ absurd (some_cut no_cut)
                | inr (_, _, head) ↦ head
              ]);
      }

  process_buffer-IsCut :
      (process_buffer test r (r.buffered ++ block)).0.buffered ≢ []
      → IsCut test (r.buffered ++ block) (process_buffer test r (r.buffered ++ block))
  unfolding process_buffer
  process_buffer-IsCut kept = elim (check_overflow_cases test (split test r valid block)) [
    | inl (room, _) ↦ rw (room, append-nil) split_buffer-IsCut
    | inr emptied ↦ absurd (kept (rw emptied))
  ]

  -- Unless an overflow empties the buffer, `Read` loses no byte and cuts only in front of a line
  -- that passes the test: the consumed records, each with the newline behind it, and the buffered
  -- rest spell what was buffered and what was read; every consumed record but the first one of
  -- the call begins with such a line, and so does the buffered rest if a record was consumed.
  pub read-IsCut :
      (read test r block).0.buffered ≢ [] → IsCut test (r.buffered ++ block) (read test r block)
  unfolding read
  read-IsCut = elim (Bool-cases (ltb 0 (length block))) [
    | inl some_read ↦ rw (some_read, read) process_buffer-IsCut
    | inr nothing ↦
        rw (nothing, empty_lem block nothing)
          (λ _. record {
            content = unfold lines in sym (append-nil r.buffered);
            heads = tt;
            rest_head = λ some_cut. absurd (some_cut refl);
          })
  ]

-- `Flush` leaves a buffer with no newline as it is. In any other it ends the record at the last
-- newline: the record, the newline and the rest spell the buffer, the rest has no newline, and the
-- record is consumed exactly when it is not empty and passes the test.
pub flush_lem :
    (test : Bytes → Bool) (r : Reader)
    → Lacks newline r.buffered × (flush test r ≡ (r, []))
      ⊎ ((ended : Bytes) × (ended ++ newline ∷ (flush test r).0.buffered ≡ r.buffered)
          × Lacks newline (flush test r).0.buffered
          × ((flush test r).1 ≡ (if ltb 0 (length ended) && test ended then ended ∷ [] else [])))
unfolding flush
flush_lem test r = elim (Option-cases (last_index_byte r.buffered newline)) [
  | inl none_found ↦ inl (last_index_byte-none r.buffered newline none_found, rw none_found)
  | inr (n, found) ↦
      let (whole, clear, _) = last_index_byte-some r.buffered newline n found in
      rw found (
        inr (
          take n r.buffered,
          rw (drop_eq (n + 1) (suc n) r.buffered (omega arith)) whole,
          rw (drop_eq (n + 1) (suc n) r.buffered (omega arith)) clear,
          refl,
        ))
]
