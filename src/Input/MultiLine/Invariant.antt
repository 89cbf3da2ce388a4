-- ===== src/Input/MultiLine/Invariant.antt =====
-- The reader's offsets stay in its buffer, and room for a further block is always left.
use slog_agent.Base.{
  ℕ, suc, ◌+◌, ◌-◌, ◌≤◌, Bool, [], ◌∷◌, ◌++◌, ◌≡◌, ◌⊎◌, inl, inr, refl, sym, ap, ◌∙◌, arith, ltb,
  length, drop, drop-append_le, drop-drop, drop_eq, length-drop, length-append, Lacks, Bytes,
  Bool-cases, Option-cases,
}
use slog_agent.Input.MultiLine.{
  newline, Cursor, Reader, new_reader, scan_loop, relocate, split_buffer, check_overflow,
  process_buffer, read, flush, flush_all, last_index_byte,
}
use slog_agent.Input.MultiLine.Scan.{
  lines, last_index_byte-some, LineStart, IsCursor, scan_loop-IsCursor, scan_loop-Lacks,
}

-- What the reader knows between two calls: the last line starts at `offset_search`, and is
-- unfinished.
pub record IsValid (r : Reader) : Type 0 where
  pub fits : length r.buffered ≤ r.size
  pub room : r.soft_limit ≤ r.size - length r.buffered
  pub search_le : r.offset_search ≤ length r.buffered
  pub line_start : LineStart r.buffered 0 r.offset_search
  pub unfinished : Lacks newline (drop r.offset_search r.buffered)

-- A new reader satisfies the invariant.
pub new_reader-IsValid :
    (min_buffer_size soft_limit : ℕ) → IsValid (new_reader min_buffer_size soft_limit)
unfolding new_reader
new_reader-IsValid m s = record {
  fits = omega arith;
  room = ground arith;
  search_le = omega arith;
  line_start = inl refl;
  unfinished = tt;
}

LineStart-append :
    (buffered block : Bytes) (p : ℕ)
    → p ≤ length buffered
    → LineStart buffered 0 p
    → LineStart (buffered ++ block) 0 p
LineStart-append buffered block p le (inl e) = inl e
LineStart-append buffered block p le (inr (k, e, h, at)) = inr (
  k,
  e,
  h,
  drop-append_le k buffered block (omega arith)
      ∙ ap (λ t. t ++ block) at
      ∙ ap (◌∷◌ newline) (sym (drop-append_le p buffered block le)),
)

LineStart-drop :
    (buffer : Bytes) (from p : ℕ)
    → from ≤ p
    → LineStart buffer from p
    → LineStart (drop from buffer) 0 (p - from)
LineStart-drop buffer from p le (inl e) = inl (omega arith)
LineStart-drop buffer from p le (inr (k, e, h, at)) = inr (
  k - from,
  omega arith,
  omega arith,
  drop-drop (k - from) from buffer
      ∙ drop_eq (from + (k - from)) k buffer (omega arith)
      ∙ at
      ∙ ap (◌∷◌ newline) (
          drop_eq p (from + (p - from)) buffer (omega arith)
          ∙ sym (drop-drop (p - from) from buffer)),
)

-- `checkOverflow` keeps a reader that has room, and empties any other.
pub check_overflow_cases :
    (test : Bytes → Bool) (s : Reader)
    → (check_overflow test s ≡ (s, [])) × (s.soft_limit ≤ s.size - length s.buffered)
      ⊎ ((check_overflow test s).0 ≡ record s { buffered = []; offset_search = 0 })
unfolding check_overflow
check_overflow_cases test s = ground arith

reset-IsValid :
    (s : Reader) → s.soft_limit ≤ s.size → IsValid (record s { buffered = []; offset_search = 0 })
reset-IsValid s h = record {
  fits = omega arith;
  room = omega arith;
  search_le = omega arith;
  line_start = inl refl;
  unfinished = tt;
}

relocate_lem :
    (test : Bytes → Bool) (r : Reader) (buffer : Bytes) (v : Cursor)
    → ((relocate test r buffer v).buffered ≡ drop v.record_start buffer)
      × ((relocate test r buffer v).offset_search ≡ v.search_start - v.record_start)
      × ((relocate test r buffer v).size ≡ r.size)
      × ((relocate test r buffer v).soft_limit ≡ r.soft_limit)
unfolding relocate
relocate_lem test r buffer v = elim (Bool-cases (ltb 0 v.record_start)) [
  | inl moved ↦ rw moved (refl, refl, refl, refl)
  | inr same ↦
      let none_moved : v.record_start ≡ 0 = ground arith in
      rw same (drop_eq 0 v.record_start buffer (omega arith), omega arith, refl, refl)
]

module _ (test : Bytes → Bool) (r : Reader) (valid : IsValid r) (block : Bytes) where
  abbrev pub whole : Bytes
  whole = r.buffered ++ block

  abbrev pub start : Cursor
  start = record { record_start = 0; search_start = r.offset_search; consumed = [] }

  abbrev pub stop : Cursor
  stop = scan_loop test (suc (length whole)) whole start

  start-IsCursor : IsCursor test whole start
  unfolding lines
  start-IsCursor = record {
    record_le = omega arith;
    search_le = omega (arith, length-append r.buffered block, valid.search_le);
    line_start = LineStart-append r.buffered block r.offset_search valid.search_le valid.line_start;
    content = refl;
    record_head = inl (refl, refl);
    heads = tt;
  }

  pub stop-IsCursor : IsCursor test whole stop
  stop-IsCursor = scan_loop-IsCursor test (suc (length whole)) whole start start-IsCursor

  stop-Lacks : Lacks newline (drop stop.search_start whole)
  stop-Lacks =
      scan_loop-Lacks test (suc (length whole)) whole start start-IsCursor.search_le (omega arith)

  abbrev pub split : Reader
  split = (split_buffer test r whole).0

  pub split_lem :
      (split.buffered ≡ drop stop.record_start whole)
      × (split.offset_search ≡ stop.search_start - stop.record_start)
      × (split.size ≡ r.size)
      × (split.soft_limit ≡ r.soft_limit)
  unfolding split_buffer
  split_lem = relocate_lem test r whole stop

  pub split_records : (split_buffer test r whole).1 ≡ stop.consumed
  unfolding split_buffer
  split_records = refl

  -- What `processBuffer` leaves to `checkOverflow`.
  split_parts :
      (length split.buffered ≤ length whole)
      × (split.offset_search ≤ length split.buffered)
      × LineStart split.buffered 0 split.offset_search
      × Lacks newline (drop split.offset_search split.buffered)
  split_parts =
      let (buffered, offset, _, _) = split_lem in
      let c = stop-IsCursor in
      rw (buffered, offset)
        (
          omega (arith, length-drop stop.record_start whole),
          omega (arith, length-drop stop.record_start whole, c.search_le),
          LineStart-drop whole stop.record_start stop.search_start c.record_le c.line_start,
          rw
              (
                drop-drop (stop.search_start - stop.record_start) stop.record_start whole,
                ← drop_eq stop.search_start
                    (stop.record_start + (stop.search_start - stop.record_start)) whole
                    (omega (arith, c.record_le)),
              )
              stop-Lacks,
        )

  process-IsValid : length whole ≤ r.size → IsValid (process_buffer test r whole).0
  unfolding process_buffer
  process-IsValid h =
      let (shorter, search, at, lacks) = split_parts in
      let (_, _, size, limit) = split_lem in
      elim (check_overflow_cases test split) [
        | inl (kept, room) ↦ rw kept (record {
          fits = omega (arith, size);
          room = room;
          search_le = search;
          line_start = at;
          unfinished = lacks;
        })
        | inr emptied ↦ rw emptied (reset-IsValid split (omega (arith, size, limit, valid.room)))
      ]

  -- `Read` keeps the invariant, for a block that fits in the free part of the buffer: the offsets
  -- stay in the buffer, and there is room for `softRecordLimit` further bytes.
  pub read-IsValid : length block ≤ r.size - length r.buffered → IsValid (read test r block).0
  unfolding read
  read-IsValid h = elim (Bool-cases (ltb 0 (length block))) [
    | inl some_read ↦
        rw some_read (process-IsValid (omega (arith, length-append r.buffered block, valid.fits)))
    | inr nothing ↦ rw nothing valid
  ]

-- `Flush` keeps the invariant.
pub flush-IsValid : (test : Bytes → Bool) (r : Reader) → IsValid r → IsValid (flush test r).0
unfolding flush
flush-IsValid test r valid = elim (Option-cases (last_index_byte r.buffered newline)) [
  | inl none_found ↦ rw none_found valid
  | inr (n, found) ↦
      let (_, clear, below) = last_index_byte-some r.buffered newline n found in
      rw found (record {
        fits = omega (arith, length-drop (n + 1) r.buffered, valid.fits);
        room = omega (arith, length-drop (n + 1) r.buffered, valid.room);
        search_le = omega arith;
        line_start = inl refl;
        unfinished = rw (drop_eq (n + 1) (suc n) r.buffered (omega arith)) clear;
      })
]

-- `FlushAll` keeps the invariant.
pub flush_all-IsValid :
    (test : Bytes → Bool) (r : Reader) → IsValid r → IsValid (flush_all test r).0
unfolding flush_all
flush_all-IsValid test r valid = reset-IsValid r (omega (arith, valid.room))

-- The calls of a connection, in any order, from a new reader on: blocks that fit in the free part
-- of the buffer, and flushes.
pub data Reach (test : Bytes → Bool) (start : Reader) : Reader → Type 0 where
  here : Reach test start start
  reads :
      {r : Reader} (block : Bytes)
      → Reach test start r
      → length block ≤ r.size - length r.buffered
      → Reach test start (read test r block).0
  flushes : {r : Reader} → Reach test start r → Reach test start (flush test r).0
  ends : {r : Reader} → Reach test start r → Reach test start (flush_all test r).0

-- Whatever `Read`, `Flush` and `FlushAll` do in any order from a valid reader on, `offsetSearch`
-- and `offsetAppend` stay in the buffer, the text from `offsetSearch` on is one unfinished line
-- that starts there, and room for `softRecordLimit` further bytes is left for the next `Read`.
pub Reach-IsValid :
    (test : Bytes → Bool) {start r : Reader} → IsValid start → Reach test start r → IsValid r
Reach-IsValid test v here = v
Reach-IsValid test v (reads {r = r} block c h) =
    read-IsValid test r (Reach-IsValid test v c) block h
Reach-IsValid test v (flushes {r = r} c) = flush-IsValid test r (Reach-IsValid test v c)
Reach-IsValid test v (ends {r = r} c) = flush_all-IsValid test r (Reach-IsValid test v c)
