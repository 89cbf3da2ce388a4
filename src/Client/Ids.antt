-- ===== src/Client/Ids.antt =====
-- Lists of chunks as the sets of their IDs.
use slog_agent.Base.{
  Bool, true, false, ◌||◌, List, [], ◌∷◌, ◌++◌, Option, none, some, ◌≡◌, refl, arith, if◌then◌else◌,
  bytes_eq, bytes_eq_iff, Bytes,
}
use slog_agent.Buffer.Disk.{LogChunk}

unfoldable pub has_id : Bytes → List LogChunk → Bool
has_id i [] = false
has_id i (c ∷ cs) = bytes_eq i c.id || has_id i cs

pub has_id-append :
    (i : Bytes) (xs ys : List LogChunk) → has_id i (xs ++ ys) ≡ (has_id i xs || has_id i ys)
unfolding has_id
has_id-append i [] ys = refl
has_id-append i (c ∷ xs) ys = ground (arith, has_id-append i xs ys)

-- The map `pendingChunksByID`, as its values; every chunk stands under its own ID.
unfoldable pub delete : Bytes → List LogChunk → List LogChunk
delete i [] = []
delete i (c ∷ cs) = if bytes_eq i c.id then delete i cs else c ∷ delete i cs

unfoldable pub find : Bytes → List LogChunk → Option LogChunk
find i [] = none
find i (c ∷ cs) = if bytes_eq i c.id then some c else find i cs

pub has_id-delete :
    (i k : Bytes) (cs : List LogChunk)
    → (has_id i (delete k cs) || bytes_eq i k) ≡ (has_id i cs || bytes_eq i k)
unfolding has_id delete
has_id-delete i k [] = refl
has_id-delete i k (c ∷ cs) =
    ground (arith, has_id-delete i k cs, bytes_eq_iff k c.id, bytes_eq_iff i k, bytes_eq_iff i c.id)

-- What is found has the ID, and is there.
pub find_lem :
    (k : Bytes) (c : LogChunk) (cs : List LogChunk)
    → find k cs ≡ some c
    → (c.id ≡ k) × (has_id k cs ≡ true)
unfolding has_id find
find_lem k c [] e = absurd (ground arith)
find_lem k c (d ∷ cs) e = ground (arith, find_lem k c cs, bytes_eq_iff k d.id)
