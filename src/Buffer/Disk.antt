-- ===== src/Buffer/Disk.antt =====
-- The chunk directory as the file functions of util/files.go show it, and base/logchunk.go. Whether
-- a call fails is the environment's choice, given as an argument.
use slog_agent.Base.{
  ℕ, ◌+◌, Bool, List, [], ◌∷◌, Option, none, some, ◌≡◌, arith, if◌then◌else◌, bytes_eq,
  bytes_eq_iff, Bytes, ◌≢◌,
}

-- `data` is `none` for nil: an unloaded chunk.
pub record LogChunk : Type 0 where
  pub id : Bytes
  pub data_ : Option Bytes
  pub saved : Bool

-- A gauge of the metrics library by what was added and what was subtracted; it may be negative.
pub record Gauge : Type 0 where
  pub up : ℕ
  pub down : ℕ

abbrev pub zero_gauge : Gauge
zero_gauge = record { up = 0; down = 0 }

abbrev pub add : ℕ → Gauge → Gauge
add n g = record g { up = g.up + n }

abbrev pub sub : ℕ → Gauge → Gauge
sub n g = record g { down = g.down + n }

abbrev pub Files : Type 0
Files = List (Bytes × Bytes)

unfoldable pub find_file : Bytes → Files → Option Bytes
find_file id [] = none
find_file id ((j, content) ∷ fs) = if bytes_eq j id then some content else find_file id fs

unfoldable pub put_file : Bytes → Bytes → Files → Files
put_file id content [] = (id, content) ∷ []
put_file id content ((j, old) ∷ fs) =
    if bytes_eq j id then (id, content) ∷ fs else (j, old) ∷ put_file id content fs

unfoldable pub remove_file : Bytes → Files → Files
remove_file id [] = []
remove_file id ((j, old) ∷ fs) = if bytes_eq j id then fs else (j, old) ∷ remove_file id fs

pub find_file-put_file :
    (id : Bytes) (content : Bytes) (fs : Files)
    → find_file id (put_file id content fs) ≡ some content
unfolding find_file put_file
find_file-put_file id content [] = ground (arith, bytes_eq_iff id id)
find_file-put_file id content ((j, old) ∷ fs) =
    ground (arith, bytes_eq_iff id id, find_file-put_file id content fs)

pub find_file-put_file_other :
    (id other content : Bytes) (fs : Files)
    → other ≢ id
    → find_file other (put_file id content fs) ≡ find_file other fs
unfolding find_file put_file
find_file-put_file_other id other content [] ne = ground (arith, bytes_eq_iff id other)
find_file-put_file_other id other content ((j, old) ∷ fs) ne =
    let rest = find_file-put_file_other id other content fs ne in
    ground (arith, bytes_eq_iff id other, bytes_eq_iff j id, bytes_eq_iff j other)
