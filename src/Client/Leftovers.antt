-- ===== src/Client/Leftovers.antt =====
-- `newLeftoverChannel` of output/baseoutput/clientsession.go: sorted and deduplicated chunks.
use slog_agent.Base.{
  true, false, ◌||◌, List, [], ◌∷◌, ◌≡◌, refl, arith, if◌then◌else◌, bytes_eq, bytes_eq_iff, Bytes,
  bytes_lt, bytes_lt-asymmetric, bytes_lt-total, subst, ◌∙◌, Bool-cases, inl, inr,
}
use slog_agent.Buffer.Disk.{LogChunk}
use slog_agent.Client.Ids.{has_id}

-- `sort.Slice` by ID. It promises no order between chunks of one ID; here the earlier one stays
-- first.
unfoldable pub insert_chunk : LogChunk → List LogChunk → List LogChunk
insert_chunk c [] = c ∷ []
insert_chunk c (x ∷ xs) = if bytes_lt x.id c.id then x ∷ insert_chunk c xs else c ∷ x ∷ xs

unfoldable pub sort_chunks : List LogChunk → List LogChunk
sort_chunks [] = []
sort_chunks (c ∷ cs) = insert_chunk c (sort_chunks cs)

-- The loop over the sorted chunks, with `lastChunkID`.
unfoldable pub skip_duplicates : Bytes → List LogChunk → List LogChunk
skip_duplicates last_chunk_id [] = []
skip_duplicates last_chunk_id (c ∷ cs) =
    if bytes_eq c.id last_chunk_id
    then skip_duplicates last_chunk_id cs
    else c ∷ skip_duplicates c.id cs

unfoldable pub new_leftover_channel : List LogChunk → List LogChunk
new_leftover_channel chunks = skip_duplicates [] (sort_chunks chunks)

-- Each ID is at least the one before it, the first at least `a`.
abbrev Climbs : Bytes → List LogChunk → Type 0
Climbs a [] = Unit
Climbs a (c ∷ cs) = (bytes_lt c.id a ≡ false) × Climbs c.id cs

-- Each ID is above the one before it, the first above `a`.
abbrev pub Ascends : Bytes → List LogChunk → Type 0
Ascends a [] = Unit
Ascends a (c ∷ cs) = (bytes_lt a c.id ≡ true) × Ascends c.id cs

insert_chunk-Climbs :
    (a : Bytes) (c : LogChunk) (cs : List LogChunk)
    → bytes_lt c.id a ≡ false
    → Climbs a cs
    → Climbs a (insert_chunk c cs)
unfolding insert_chunk
insert_chunk-Climbs a c [] h s = (h, tt)
insert_chunk-Climbs a c (x ∷ xs) h (hx, s) = elim (Bool-cases (bytes_lt x.id c.id)) [
  | inl less ↦ rw less (hx, insert_chunk-Climbs x.id c xs (bytes_lt-asymmetric x.id c.id less) s)
  | inr more ↦ rw more (h, (more, s))
]

bytes_lt_nil : (a : Bytes) → bytes_lt a [] ≡ false
unfolding bytes_lt
bytes_lt_nil [] = refl
bytes_lt_nil (x ∷ a) = refl

sort_chunks-Climbs : (cs : List LogChunk) → Climbs [] (sort_chunks cs)
unfolding sort_chunks
sort_chunks-Climbs [] = tt
sort_chunks-Climbs (c ∷ cs) =
    insert_chunk-Climbs [] c (sort_chunks cs) (bytes_lt_nil c.id) (sort_chunks-Climbs cs)

skip_duplicates-Ascends :
    (a : Bytes) (cs : List LogChunk) → Climbs a cs → Ascends a (skip_duplicates a cs)
unfolding skip_duplicates
skip_duplicates-Ascends a [] s = tt
skip_duplicates-Ascends a (c ∷ cs) (h, s) = elim (Bool-cases (bytes_eq c.id a)) [
  | inl same ↦
      rw (same, skip_duplicates)
        (skip_duplicates-Ascends a cs (subst (λ b. Climbs b cs) ((bytes_eq_iff c.id a).0 same) s))
  | inr other ↦
      rw (other, skip_duplicates) (bytes_lt-total c.id a other h, skip_duplicates-Ascends c.id cs s)
]

has_id-insert_chunk :
    (i : Bytes) (c : LogChunk) (cs : List LogChunk)
    → has_id i (insert_chunk c cs) ≡ (bytes_eq i c.id || has_id i cs)
unfolding has_id insert_chunk
has_id-insert_chunk i c [] = refl
has_id-insert_chunk i c (x ∷ xs) = ground (arith, has_id-insert_chunk i c xs)

pub has_id-sort_chunks : (i : Bytes) (cs : List LogChunk) → has_id i (sort_chunks cs) ≡ has_id i cs
unfolding has_id sort_chunks
has_id-sort_chunks i [] = refl
has_id-sort_chunks i (c ∷ cs) =
    ground (arith, has_id-insert_chunk i c (sort_chunks cs), has_id-sort_chunks i cs)

pub has_id-skip_duplicates :
    (i a : Bytes) (cs : List LogChunk)
    → bytes_eq i a ≡ false
    → has_id i (skip_duplicates a cs) ≡ has_id i cs
unfolding has_id skip_duplicates
has_id-skip_duplicates i a [] h = refl
has_id-skip_duplicates i a (c ∷ cs) h =
    ground
      (arith, has_id-skip_duplicates i a cs, has_id-skip_duplicates i c.id cs, bytes_eq_iff c.id a)

-- The leftovers are sorted by ID with no ID twice in a row and none empty: each ID is above the one
-- before it, and the first above the empty one.
pub new_leftover_channel-Ascends : (cs : List LogChunk) → Ascends [] (new_leftover_channel cs)
unfolding new_leftover_channel
new_leftover_channel-Ascends cs =
    skip_duplicates-Ascends [] (sort_chunks cs) (sort_chunks-Climbs cs)

pub has_id-new_leftover_channel :
    (i : Bytes) (cs : List LogChunk)
    → bytes_eq i [] ≡ false
    → has_id i (new_leftover_channel cs) ≡ has_id i cs
unfolding new_leftover_channel
has_id-new_leftover_channel i cs ne =
    has_id-skip_duplicates i [] (sort_chunks cs) ne ∙ has_id-sort_chunks i cs
