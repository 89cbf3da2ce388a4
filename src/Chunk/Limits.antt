-- ===== src/Chunk/Limits.antt =====
-- The chunks of the packer keep to their limits.
use slog_agent.Base.{
  ◌≤◌, ◌<◌, true, false, List, [], ◌∷◌, ◌++◌, Option, none, some, ◌≡◌, refl, ap, sym, ◌∙◌, subst,
  arith, length, length-append, Bytes, ◌⊎◌, inl, inr, Bool-cases, append-nil, append_assoc,
}
use slog_agent.Buffer.Disk.{LogChunk}
use slog_agent.Chunk.Packer.{
  ChunkFormat, IntermediateChunk, write, can_append_data, chunk_data, finalize_chunk, MessagePacker,
  Finished, new_chunk, flush_current, flush_buffer, make_room, write_current, write_stream,
}
use slog_agent.Chunk.Laws.{Encodes}

abbrev pub concat : List Bytes → Bytes
concat [] = []
concat (b ∷ bs) = b ++ concat bs

concat-append : (xs : List Bytes) (b : Bytes) → concat (xs ++ b ∷ []) ≡ concat xs ++ b
concat-append [] b = append-nil b
concat-append (x ∷ xs) b = ap (◌++◌ x) (concat-append xs b) ∙ sym (append_assoc x (concat xs) b)

-- A chunk whose counts and bytes are those of its streams, within its limits: a limit of bytes is
-- passed only by a chunk of one stream.
pub record IsPacked (format : ChunkFormat) (chunk : IntermediateChunk) : Type 0 where
  pub written_eq : chunk.written ≡ concat chunk.streams
  pub num_bytes_eq : chunk.num_bytes ≡ length chunk.written
  pub num_records_eq : chunk.num_records ≡ length chunk.streams
  pub records_le : 0 < format.max_records → chunk.num_records ≤ format.max_records
  pub bytes_le :
      0 < format.max_bytes → (chunk.num_bytes ≤ format.max_bytes) ⊎ (chunk.num_records ≤ 1)

write-IsPacked :
    (format : ChunkFormat) (b : Bytes) (chunk : IntermediateChunk)
    → (can_append_data format (length b) chunk ≡ true) ⊎ (chunk.num_records ≡ 0)
    → IsPacked format chunk
    → IsPacked format (write b chunk)
unfolding write can_append_data
write-IsPacked format b chunk fits k = record {
  written_eq = ap (λ x. x ++ b) k.written_eq ∙ sym (concat-append chunk.streams b);
  num_bytes_eq = omega (arith, k.num_bytes_eq, length-append chunk.written b);
  num_records_eq = omega (arith, k.num_records_eq, length-append chunk.streams (b ∷ []));
  records_le = λ h. elim fits [ inl room ↦ ground arith | inr new ↦ omega (arith, new) ];
  bytes_le = λ h. elim fits [ inl room ↦ inl (ground arith) | inr new ↦ inr (omega (arith, new)) ];
}

abbrev pub Held : ChunkFormat → Option IntermediateChunk → Type 0
Held format none = Unit
Held format (some chunk) = IsPacked format chunk

-- A finished chunk has the data of a packed one.
abbrev pub Made : ChunkFormat → Finished → Type 0
Made format none = Unit
Made format (some (chunk, made)) =
    IsPacked format made × (chunk.data_ ≡ chunk_data format made) × (chunk.id ≡ made.id)

finalize-Made :
    (format : ChunkFormat) (chunk : IntermediateChunk)
    → Encodes format
    → IsPacked format chunk
    → (out : LogChunk) × (finalize_chunk format chunk ≡ some (out, chunk))
      × (out.data_ ≡ chunk_data format chunk)
      × (out.id ≡ chunk.id)
unfolding finalize_chunk
finalize-Made format chunk h k =
    let (d, e) = h chunk in
    (
      record { id = chunk.id; data_ = some d; saved = false },
      rw (e, finalize_chunk) refl,
      sym e,
      refl,
    )

flush_current-Made :
    (format : ChunkFormat) (p : MessagePacker) (o : Option IntermediateChunk)
    → Encodes format
    → p.current_chunk ≡ o
    → Held format o
    → Held format (flush_current format o p).0.current_chunk
      × Made format (flush_current format o p).1
flush_current-Made format p none h e k = (subst (Held format) (sym e) k, tt)
flush_current-Made format p (some chunk) h e k =
    let (out, made, same, id) = finalize-Made format chunk h k in rw made (tt, (k, same, id))

-- What the writing of a stream needs of the current chunk.
abbrev Fits : ChunkFormat → Bytes → Option IntermediateChunk → Type 0
Fits format b none = Unit
Fits format b (some chunk) = can_append_data format (length b) chunk ≡ true

make_room-Made :
    (format : ChunkFormat) (b : Bytes) (p : MessagePacker) (o : Option IntermediateChunk)
    → Encodes format
    → p.current_chunk ≡ o
    → Held format o
    → Held format (make_room format b o p).0.current_chunk
      × Fits format b (make_room format b o p).0.current_chunk
      × Made format (make_room format b o p).1
unfolding flush_buffer
make_room-Made format b p none h e k =
    (subst (Held format) (sym e) k, subst (Fits format b) (sym e) tt, tt)
make_room-Made format b p (some chunk) h e k =
    elim (Bool-cases (can_append_data format (length b) chunk)) [
      | inl room ↦ rw room (subst (Held format) (sym e) k, subst (Fits format b) (sym e) room, tt)
      | inr full ↦
          rw (full, e)
            (let (out, made, same, id) = finalize-Made format chunk h k in
              rw made (tt, tt, (k, same, id)))
    ]

write_current-Held :
    (format : ChunkFormat) (b : Bytes) (p : MessagePacker) (o : Option IntermediateChunk)
    → Held format o
    → Fits format b o
    → Held format (write_current b o p).current_chunk
write_current-Held format b p none k fits =
    write-IsPacked format b (new_chunk _) (inr refl) (record {
      written_eq = refl;
      num_bytes_eq = refl;
      num_records_eq = refl;
      records_le = λ h. omega arith;
      bytes_le = λ h. inl (omega arith);
    })
write_current-Held format b p (some chunk) k fits = write-IsPacked format b chunk (inl fits) k

-- With an encoder that does not fail, the packer keeps its current chunk packed, and every chunk that
-- it gives away, when a stream is written or at a flush, is a packed one, encoded as it was made up
-- under its own ID: its counts are those of its streams, its records are within the limit of
-- records, and its bytes within the limit of bytes unless it is a single stream.
pub write_stream-Made :
    (format : ChunkFormat) (p : MessagePacker) (b : Bytes)
    → Encodes format
    → Held format p.current_chunk
    → (Held format (write_stream format p b).0.current_chunk
        × Made format (write_stream format p b).1)
      × (Held format (flush_buffer format p).0.current_chunk
          × Made format (flush_buffer format p).1)
unfolding write_stream flush_buffer
write_stream-Made format p b h k =
    let p' = (make_room format b p.current_chunk p).0 in
    let (held, fits, made) = make_room-Made format b p p.current_chunk h refl k in
    (
      (write_current-Held format b p' p'.current_chunk held fits, made),
      flush_current-Made format p p.current_chunk h refl k,
    )
