-- ===== src/Chunk/Laws.antt =====
-- The packer keeps the promise of a chunk maker.
use slog_agent.Base.{
  false, List, [], ◌∷◌, ◌++◌, Option, none, some, ◌≡◌, refl, ap, sym, ◌∙◌, subst, length, Bytes,
  inl, inr, Bool-cases, append-nil, append_assoc,
}
use slog_agent.Input.Parser.{LogRecord}
use slog_agent.Buffer.Disk.{LogChunk}
use slog_agent.Pipeline.Worker.{OutputInterface, IsChunkMaker, streams_of}
use slog_agent.Chunk.Packer.{
  ChunkFormat, IntermediateChunk, write, can_append_data, chunk_data, finalize_chunk, MessagePacker,
  Finished, flush_current, flush_buffer, make_room, write_current, write_stream,
}

abbrev pub streams_in : Option IntermediateChunk → List Bytes
streams_in none = []
streams_in (some chunk) = chunk.streams

-- The streams that the packer holds.
abbrev pub buffered : MessagePacker → List Bytes
buffered p = streams_in p.current_chunk

abbrev to_streams : Finished → Option (List Bytes)
to_streams none = none
to_streams (some (chunk, made)) = some made.streams

-- The packer as the chunk maker of an output, with the serializer of that.
abbrev pub as_output : ChunkFormat → (LogRecord → Bytes × LogRecord) → OutputInterface MessagePacker
as_output format serialize_record = record {
  serialize_record = serialize_record;
  write_stream = λ p b. let (p', out) = write_stream format p b in (p', to_streams out);
  flush_buffer = λ p. let (p', out) = flush_buffer format p in (p', to_streams out);
}

-- The encoder never fails, as it writes to a buffer in memory.
abbrev pub Encodes : ChunkFormat → Type 0
Encodes format = (chunk : IntermediateChunk) → (d : Bytes) × (chunk_data format chunk ≡ some d)

finalize-some :
    (format : ChunkFormat) (chunk : IntermediateChunk)
    → Encodes format
    → (out : LogChunk) × (finalize_chunk format chunk ≡ some (out, chunk))
unfolding finalize_chunk
finalize-some format chunk h =
    let (d, e) = h chunk in
    (record { id = chunk.id; data_ = some d; saved = false }, rw (e, finalize_chunk) refl)

flush-law :
    (format : ChunkFormat) (p : MessagePacker) (o : Option IntermediateChunk)
    → Encodes format
    → (streams_of (to_streams (flush_current format o p).1) ≡ streams_in o)
      × (o ≡ p.current_chunk → buffered (flush_current format o p).0 ≡ [])
flush-law format p none h = (refl, λ e. ap streams_in (sym e))
flush-law format p (some chunk) h =
    let (out, e) = finalize-some format chunk h in rw e (refl, λ _. refl)

make_room-law :
    (format : ChunkFormat) (b : Bytes) (p : MessagePacker) (o : Option IntermediateChunk)
    → Encodes format
    → p.current_chunk ≡ o
    → streams_of (to_streams (make_room format b o p).1) ++ buffered (make_room format b o p).0
      ≡ streams_in o
unfolding flush_buffer
make_room-law format b p none h e = ap streams_in e
make_room-law format b p (some chunk) h e =
    elim (Bool-cases (can_append_data format (length b) chunk)) [
      | inl room ↦ rw room (ap streams_in e)
      | inr full ↦ rw full (
          let (out, made) = flush-law format p (some chunk) h in
          subst
            (λ o.
              streams_of (to_streams (flush_current format o p).1)
                ++ buffered (flush_current format o p).0
              ≡ chunk.streams)
            (sym e)
            (ap (λ x. x ++ buffered (flush_current format (some chunk) p).0) out
              ∙ ap (◌++◌ chunk.streams) (made (sym e))
              ∙ append-nil chunk.streams))
    ]

write_current-law :
    (b : Bytes) (p : MessagePacker) (o : Option IntermediateChunk)
    → p.current_chunk ≡ o
    → buffered (write_current b o p) ≡ streams_in o ++ b ∷ []
unfolding write
write_current-law b p none e = refl
write_current-law b p (some chunk) e = refl

-- The packer of an output, with an encoder that does not fail, is a chunk maker that loses, adds and
-- moves no stream: what it gives away and what it holds, in order, is what it held and was given; a
-- flush gives all away. So the theorems on workers hold for it.
pub as_output-IsChunkMaker :
    (format : ChunkFormat) (serialize_record : LogRecord → Bytes × LogRecord)
    → Encodes format
    → IsChunkMaker buffered (as_output format serialize_record)
unfolding write_stream flush_buffer
as_output-IsChunkMaker format serialize_record h = record {
  write_law = λ p b.
      let (p', out) = make_room format b p.current_chunk p in
      ap (◌++◌ (streams_of (to_streams out))) (write_current-law b p' p'.current_chunk refl)
      ∙ sym (append_assoc (streams_of (to_streams out)) (buffered p') (b ∷ []))
      ∙ ap (λ x. x ++ b ∷ []) (make_room-law format b p p.current_chunk h refl);
  flush_law = λ p. (flush-law format p p.current_chunk h).0;
  empty_law = λ p. (flush-law format p p.current_chunk h).1 refl;
}
