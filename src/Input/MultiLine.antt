-- ===== src/Input/MultiLine.antt =====
-- input/tcplistener/multilinereader.go: the reader that cuts a byte stream into multi-line
-- records. `buffered` holds the used part of the source's `buffer`, up to `offsetAppend`; the
-- callbacks are the parameter `test` and the list of consumed records that each method returns.
pub mod Scan
pub mod Invariant
pub mod Lossless
use slog_agent.Base.{
  ℕ, zero, suc, ◌+◌, ◌-◌, ◌*◌, Bool, true, false, ◌&&◌, List, [], ◌∷◌, ◌++◌, Option, none, some,
  ltb, leb, ◌==◌, if◌then◌else◌, length, drop, take, slice, get_or, index_byte, shift, Bytes,
}

pub record Reader : Type 0 where
  pub soft_limit : ℕ
  pub size : ℕ
  pub buffered : Bytes
  pub offset_search : ℕ

-- The reader's next state and the records that it has handed to `consumeRecord`, in order.
abbrev pub Outcome : Type 0
Outcome = Reader × List Bytes

abbrev pub newline : ℕ
newline = b'\n'

-- `util.MaxInt`
unfoldable pub max_int : ℕ → ℕ → ℕ
max_int x y = if ltb y x then x else y

unfoldable pub new_reader : ℕ → ℕ → Reader
unfolding max_int
new_reader min_buffer_size soft_limit = record {
  soft_limit = soft_limit;
  size = max_int min_buffer_size (soft_limit * 3);
  buffered = [];
  offset_search = 0;
}

-- `bytes.LastIndexByte`; `none` is -1.
unfoldable pub last_index_byte : Bytes → ℕ → Option ℕ
last_index_byte [] b = none
last_index_byte (c ∷ s) b = elim (last_index_byte s b) [
  | some i ↦ some (suc i)
  | none ↦ if c == b then some 0 else none
]

-- The local variables of the loop in `processBuffer`.
pub record Cursor : Type 0 where
  pub record_start : ℕ
  pub search_start : ℕ
  pub consumed : List Bytes

module _ (test : Bytes → Bool) where
  -- One round of the loop, for a newline found at `next_end`.
  unfoldable pub scan_line : Bytes → ℕ → Cursor → Cursor
  scan_line buffer next_end v =
      if ltb 0 v.search_start
        && ltb v.search_start next_end
        && test (slice buffer v.search_start next_end)
      then record {
        record_start = v.search_start;
        search_start = next_end + 1;
        consumed = v.consumed ++ slice buffer v.record_start (v.search_start - 1) ∷ [];
      }
      else record v { search_start = next_end + 1 }

  -- The loop in `processBuffer`. Each round moves `search_start` on, so the length of the buffer
  -- is fuel enough.
  unfoldable pub scan_loop : ℕ → Bytes → Cursor → Cursor
  scan_loop zero buffer v = v
  scan_loop (suc fuel) buffer v = elim (index_byte (drop v.search_start buffer) newline) [
    | none ↦ v
    | some rel ↦ scan_loop fuel buffer (scan_line buffer (rel + v.search_start) v)
  ]

  abbrev reset : Reader → Reader
  reset r = record r { buffered = []; offset_search = 0 }

  -- `wholeRecord` at the end of `checkOverflow`
  consume_whole : Reader → Outcome
  consume_whole r = (reset r, if test r.buffered then r.buffered ∷ [] else [])

  unfoldable pub check_overflow : Reader → Outcome
  unfolding consume_whole
  check_overflow r =
      if leb r.soft_limit (r.size - length r.buffered)
      then (r, [])
      else if ltb 0 r.offset_search && test (drop r.offset_search r.buffered)
      then (
        reset r,
        (if test (take (r.offset_search - 1) r.buffered)
              then take (r.offset_search - 1) r.buffered ∷ []
              else [])
            ++ drop r.offset_search r.buffered ∷ [],
      )
      else consume_whole r

  -- The end of `processBuffer`: an unfinished record moves to the start of the buffer.
  unfoldable pub relocate : Reader → Bytes → Cursor → Reader
  relocate r buffer v =
      if ltb 0 v.record_start
      then record r {
        buffered = drop v.record_start buffer;
        offset_search = v.search_start - v.record_start;
      }
      else record r { buffered = buffer; offset_search = v.search_start }

  -- The state and the records before `checkOverflow`.
  unfoldable pub split_buffer : Reader → Bytes → Outcome
  unfolding relocate
  split_buffer r buffer =
      let v =
        scan_loop (suc (length buffer)) buffer
          (record { record_start = 0; search_start = r.offset_search; consumed = [] }) in
      (relocate r buffer v, v.consumed)

  unfoldable pub process_buffer : Reader → Bytes → Outcome
  process_buffer r buffer =
      let (split, records) = split_buffer r buffer in
      let (next, rest) = check_overflow split in (next, records ++ rest)

  -- `Read` of a block that `readInput` has put behind the buffered bytes.
  unfoldable pub read : Reader → Bytes → Outcome
  read r block = if ltb 0 (length block) then process_buffer r (r.buffered ++ block) else (r, [])

  -- `Flush`, with a newline at `n`.
  flush_at : Reader → Option ℕ → Outcome
  flush_at r none = (r, [])
  flush_at r (some n) = (
    record r { buffered = drop (n + 1) r.buffered; offset_search = 0 },
    if ltb 0 (length (take n r.buffered)) && test (take n r.buffered)
        then take n r.buffered ∷ []
        else [],
  )

  unfoldable pub flush : Reader → Outcome
  unfolding flush_at
  flush r = flush_at r (last_index_byte r.buffered newline)

  -- `record` without a trailing newline
  unfoldable pub cut_newline : Bytes → Bytes
  cut_newline s = if get_or s (length s - 1) 0 == newline then take (length s - 1) s else s

  unfoldable pub flush_all : Reader → Outcome
  unfolding cut_newline
  flush_all r = (
    reset r,
    if ltb 0 (length r.buffered) && test (cut_newline r.buffered)
        then cut_newline r.buffered ∷ []
        else [],
  )
