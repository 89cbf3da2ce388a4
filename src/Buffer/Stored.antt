-- ===== src/Buffer/Stored.antt =====
-- What saving one chunk leaves in the chunk directory, and why it may not save it.
use slog_agent.Base.{
  ◌+◌, Bool, true, false, ◌<◌, ◌≤◌, Option, none, some, ◌≡◌, ◌≢◌, ◌⊎◌, inl, inr, refl, arith,
  length, Bytes, Bool-cases, Option-cases, ◌∙◌, ltb,
}
use slog_agent.Buffer.Disk.{
  LogChunk, Files, find_file, find_file-put_file, find_file-put_file_other,
}
use slog_agent.Buffer.Operator.{
  Operator, WriteResult, written, failed, unload_chunk, write_chunk, leave_file,
}
use slog_agent.Buffer.Operator
use slog_agent.Buffer.Manager.{Manager, unload_or_drop_chunk, or_drop, on_chunk_dropped}

-- The content of a file of the chunk directory.
abbrev pub file_of : Operator → Bytes → Option Bytes
file_of op id = elim op.maybe_dir [ none ↦ none | some files ↦ find_file id files ]

-- Between two states of the disk the chunk has been saved: the file under its name holds its data,
-- or it was on disk before and its file is as it was.
abbrev pub IsOnDisk : Operator → Operator → LogChunk → Type 0
IsOnDisk before op chunk =
    ((chunk.saved ≡ true) × (file_of op chunk.id ≡ file_of before chunk.id))
    ⊎ ((d : Bytes) × (chunk.data_ ≡ some d) × (file_of op chunk.id ≡ some d))

-- Why a chunk that was not on disk is not saved between two states: it has no data, there is no
-- directory, its data do not fit under the limit in the later state, or an operation has failed.
abbrev pub Refused : Operator → Operator → LogChunk → Type 0
Refused before op chunk =
    (chunk.saved ≡ false)
    × ((chunk.data_ ≡ none)
        ⊎ (before.maybe_dir ≡ none)
        ⊎ ((d : Bytes) × (chunk.data_ ≡ some d)
            × (op.max_total_bytes + op.persistent_chunk_bytes.down
                < op.persistent_chunk_bytes.up + length d))
        ⊎ (before.io_errors < op.io_errors))

-- What saving does to the other parts of the operator.
pub record IsLater (before op : Operator) : Type 0 where
  pub no_dir : op.maybe_dir ≡ none → before.maybe_dir ≡ none
  pub limit_same : op.max_total_bytes ≡ before.max_total_bytes
  pub down_same : op.persistent_chunk_bytes.down ≡ before.persistent_chunk_bytes.down
  pub up_le : before.persistent_chunk_bytes.up ≤ op.persistent_chunk_bytes.up
  pub errors_le : before.io_errors ≤ op.io_errors

pub same-IsLater : (op : Operator) → IsLater op op
same-IsLater op = record {
  no_dir = λ e. e;
  limit_same = refl;
  down_same = refl;
  up_le = omega arith;
  errors_le = omega arith;
}

pub IsLater-trans : (a b c : Operator) → IsLater a b → IsLater b c → IsLater a c
IsLater-trans a b c h k = record {
  no_dir = λ e. h.no_dir (k.no_dir e);
  limit_same = k.limit_same ∙ h.limit_same;
  down_same = k.down_same ∙ h.down_same;
  up_le = omega (arith, h.up_le, k.up_le);
  errors_le = omega (arith, h.errors_le, k.errors_le);
}

-- The reason holds between an earlier and a later state too.
pub Refused-IsLater :
    (a b c d : Operator) (chunk : LogChunk)
    → IsLater a b
    → IsLater c d
    → Refused b c chunk
    → Refused a d chunk
Refused-IsLater a b c d chunk h k (s, inl e) = (s, inl e)
Refused-IsLater a b c d chunk h k (s, inr (inl e)) = (s, inr (inl (h.no_dir e)))
Refused-IsLater a b c d chunk h k (s, inr (inr (inl (x, e, full)))) =
    (s, inr (inr (inl (x, e, omega (arith, full, k.limit_same, k.down_same, k.up_le)))))
Refused-IsLater a b c d chunk h k (s, inr (inr (inr lt))) =
    (s, inr (inr (inr (omega (arith, lt, h.errors_le, k.errors_le)))))

-- What becomes of one chunk: it is kept, or it is refused and counted as dropped.
abbrev pub Turn : Manager → LogChunk → Bool → Manager → Type 0
Turn man chunk ok man' =
    ((ok ≡ true) × (man'.dropped ≡ man.dropped) × IsOnDisk man.operator man'.operator chunk)
    ⊎ ((ok ≡ false) × (man'.dropped ≡ man.dropped + 1) × Refused man.operator man'.operator chunk)

-- A chunk is on disk already, or it cannot be written, or it is written.
unload_chunk-cases :
    (io : WriteResult) (op : Operator) (chunk : LogChunk)
    → ((chunk.saved ≡ true) × (unload_chunk io op chunk ≡ (true, chunk, op)))
      ⊎ (Refused op op chunk × (unload_chunk io op chunk ≡ (false, chunk, op)))
      ⊎ ((chunk.saved ≡ false)
          × (d : Bytes) × (files : Files) × (chunk.data_ ≡ some d)
          × (op.maybe_dir ≡ some files)
          × (unload_chunk io op chunk ≡ write_chunk io op chunk d files))
unfolding unload_chunk
unload_chunk-cases io op chunk = elim (Bool-cases chunk.saved) [
  | inl s ↦ inl (s, ground arith)
  | inr s ↦ elim (Option-cases chunk.data_) [
    | inl e ↦ inr (inl ((s, inl e), ground arith))
    | inr (d, e) ↦ elim (Option-cases op.maybe_dir) [
      | inl dir ↦ inr (inl ((s, inr (inl dir)), ground arith))
      | inr (files, dir) ↦
          elim (Bool-cases (
            ltb (op.max_total_bytes + op.persistent_chunk_bytes.down)
              (op.persistent_chunk_bytes.up + length d))) [
                | inl full ↦ inr (inl ((s, inr (inr (inl (d, e, ground arith)))), ground arith))
                | inr room ↦ inr (inr (s, d, files, e, dir, ground arith))
              ]
    ]
  ]
]

write-Turn :
    (io : WriteResult) (man : Manager) (chunk : LogChunk) (d : Bytes) (files : Files)
    → chunk.saved ≡ false
    → chunk.data_ ≡ some d
    → Turn man chunk
        (or_drop man (write_chunk io man.operator chunk d files)).0
        (or_drop man (write_chunk io man.operator chunk d files)).2
unfolding write_chunk on_chunk_dropped Operator.on_chunk_dropped
write-Turn written man chunk d files s e =
    inl (refl, refl, inr (d, e, find_file-put_file chunk.id d files))
write-Turn (failed left) man chunk d files s e =
    inr (refl, refl, (s, inr (inr (inr (ground arith)))))

write-IsLater :
    (io : WriteResult) (man : Manager) (chunk : LogChunk) (d : Bytes) (files : Files)
    → chunk.saved ≡ false
    → man.operator.maybe_dir ≡ some files
    → IsLater man.operator (or_drop man (write_chunk io man.operator chunk d files)).2.operator
unfolding write_chunk on_chunk_dropped Operator.on_chunk_dropped
write-IsLater written man chunk d files s dir = record {
  no_dir = λ e. absurd (ground arith);
  limit_same = refl;
  down_same = refl;
  up_le = omega arith;
  errors_le = omega arith;
}
write-IsLater (failed left) man chunk d files s dir = rw s (record {
  no_dir = λ e. absurd (ground arith);
  limit_same = refl;
  down_same = refl;
  up_le = omega arith;
  errors_le = omega arith;
})

pub unload-Turn :
    (io : WriteResult) (man : Manager) (chunk : LogChunk)
    → Turn man chunk (unload_or_drop_chunk io man chunk).0 (unload_or_drop_chunk io man chunk).2
unfolding unload_or_drop_chunk on_chunk_dropped Operator.on_chunk_dropped
unload-Turn io man chunk = elim (unload_chunk-cases io man.operator chunk) [
  | inl (s, u) ↦ simp u (inl (refl, refl, inl (s, refl)))
  | inr (inl ((s, why), u)) ↦ simp (u, s) (inr (refl, refl, (refl, why)))
  | inr (inr (s, d, files, e, dir, u)) ↦ simp u (write-Turn io man chunk d files s e)
]

write-file_of :
    (io : WriteResult) (man : Manager) (chunk : LogChunk) (id d : Bytes) (files : Files)
    → chunk.saved ≡ false
    → man.operator.maybe_dir ≡ some files
    → id ≢ chunk.id
    → file_of (or_drop man (write_chunk io man.operator chunk d files)).2.operator id
      ≡ file_of man.operator id
unfolding write_chunk leave_file on_chunk_dropped Operator.on_chunk_dropped
write-file_of written man chunk id d files s dir ne =
    rw dir (find_file-put_file_other chunk.id id d files ne)
write-file_of (failed none) man chunk id d files s dir ne = rw (s, dir) refl
write-file_of (failed (some content)) man chunk id d files s dir ne =
    rw (s, dir) (find_file-put_file_other chunk.id id content files ne)

pub unload-file_of :
    (io : WriteResult) (man : Manager) (chunk : LogChunk) (id : Bytes)
    → id ≢ chunk.id
    → file_of (unload_or_drop_chunk io man chunk).2.operator id ≡ file_of man.operator id
unfolding unload_or_drop_chunk on_chunk_dropped Operator.on_chunk_dropped
unload-file_of io man chunk id ne = elim (unload_chunk-cases io man.operator chunk) [
  | inl (s, u) ↦ simp u refl
  | inr (inl ((s, why), u)) ↦ simp (u, s) refl
  | inr (inr (s, d, files, e, dir, u)) ↦ simp u (write-file_of io man chunk id d files s dir ne)
]

pub unload-IsLater :
    (io : WriteResult) (man : Manager) (chunk : LogChunk)
    → IsLater man.operator (unload_or_drop_chunk io man chunk).2.operator
unfolding unload_or_drop_chunk on_chunk_dropped Operator.on_chunk_dropped
unload-IsLater io man chunk = elim (unload_chunk-cases io man.operator chunk) [
  | inl (s, u) ↦ simp u (same-IsLater man.operator)
  | inr (inl ((s, why), u)) ↦ simp (u, s) (same-IsLater man.operator)
  | inr (inr (s, d, files, e, dir, u)) ↦ simp u (write-IsLater io man chunk d files s dir)
]
