-- ===== src/Msgpack/Writer.antt =====
-- output/fastmsgpack. A writer has the buffer and a position in it; it returns the buffer and the
-- position behind what it wrote, or `none` for an index out of range. The codes are the numbers of
-- the MessagePack format. A 16-bit or 32-bit length is cut to its width.
use slog_agent.Base.{
  ℕ, zero, suc, ◌+◌, ◌-◌, ◌*◌, ◌/◌, ◌%◌, ◌++◌, Option, none, some, ltb, ◌==◌, if◌then◌else◌, length,
  take, drop, set, Bytes,
}
use slog_agent.Transform.Run.{and_then}

abbrev pub Written : Type 0
Written = Option (Bytes × ℕ)

abbrev pub Writer : Type 0
Writer = Bytes → ℕ → Written

infixl 6 ◌>>◌
abbrev pub ◌>>◌ : Writer → Writer → Writer
(w >> w') buffer position = and_then (w buffer position) λ at. w' (at.0) (at.1)

-- `buffer[position] = b`, with the position behind it.
unfoldable pub put : ℕ → Writer
put b buffer position =
    if ltb position (length buffer) then some (set buffer position b, position + 1) else none

-- `position += copy(buffer[position:], s)`, which copies what has room.
unfoldable pub copy_in : Bytes → Writer
copy_in s buffer position =
    if ltb (length buffer) position
    then none
    else (let copied = take (length buffer - position) s in
        some (
          take position buffer ++ (copied ++ drop (position + length copied) buffer),
          position + length copied,
        ))

unfoldable pub write2 : ℕ → Writer
unfolding put
write2 n = put (n / 256 % 256) >> put (n % 256)

unfoldable pub write4 : ℕ → Writer
unfolding put
write4 n = put (n / 16777216 % 256) >> put (n / 65536 % 256) >> put (n / 256 % 256) >> put (n % 256)

-- `|` on numbers of so many bits.
unfoldable pub bit_or : ℕ → ℕ → ℕ → ℕ
bit_or zero a b = 0
bit_or (suc bits) a b = (if a % 2 + b % 2 == 0 then 0 else 1) + 2 * bit_or bits (a / 2) (b / 2)

unfoldable pub encode_array_len4 : ℕ → Writer
unfolding put bit_or
encode_array_len4 n = put (bit_or 8 144 (n % 256))

unfoldable pub encode_map_len4 : ℕ → Writer
unfolding put bit_or
encode_map_len4 n = put (bit_or 8 128 (n % 256))

unfoldable pub encode_map_len16 : ℕ → Writer
unfolding put write2
encode_map_len16 n = put 222 >> write2 (n % 65536)

unfoldable pub encode_string_len4 : ℕ → Writer
unfolding put bit_or
encode_string_len4 n = put (bit_or 8 160 (n % 256))

unfoldable pub encode_string_len16 : ℕ → Writer
unfolding put write2
encode_string_len16 n = put 218 >> write2 (n % 65536)

unfoldable pub encode_string_len32 : ℕ → Writer
unfolding put write4
encode_string_len32 n = put 219 >> write4 (n % 4294967296)

unfoldable pub encode_string4 : Bytes → Writer
unfolding encode_string_len4 copy_in
encode_string4 s = encode_string_len4 (length s) >> copy_in s

unfoldable pub encode_string16 : Bytes → Writer
unfolding encode_string_len16 copy_in
encode_string16 s = encode_string_len16 (length s) >> copy_in s

unfoldable pub encode_string32 : Bytes → Writer
unfolding encode_string_len32 copy_in
encode_string32 s = encode_string_len32 (length s) >> copy_in s

unfoldable pub encode_ext_header8 : ℕ → Writer
unfolding put
encode_ext_header8 type_id = put 215 >> put type_id

abbrev pub reserve_len4 : ℕ → ℕ
reserve_len4 start = start + 1

abbrev pub reserve_len16 : ℕ → ℕ
reserve_len16 start = start + 3
