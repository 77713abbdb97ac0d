-- ===== src/Collector/Split.antt =====
-- collector.go, `splitArchiveReadList`.
pub mod Bounds
use vkt7d.Common.{ℕ, ◌+◌, ltb, Bool, true, false, ◌&&◌, if◌then◌else◌, List, [], ◌∷◌, ◌++◌}
use vkt7d.Model.{Element}

abbrev pub archive_read_chunk_bytes : ℕ
archive_read_chunk_bytes = 60

-- The variables of the loop.
pub record Split : Type 0 where
  pub chunks : List (List Element)
  pub chunk : List Element
  pub chunk_bytes : ℕ

abbrev pub nonempty : List Element → Bool
nonempty [] = false
nonempty (e ∷ es) = true

-- `if len(current) > 0 { chunks = append(chunks, current); current = nil; currentBytes = 0 }`
unfoldable pub close_chunk : Split → Split
close_chunk s =
    if nonempty s.chunk
    then record { chunks = s.chunks ++ s.chunk ∷ []; chunk = []; chunk_bytes = 0 }
    else s

abbrev pub alone : Element → Split → Split
alone e s = record s { chunks = s.chunks ++ (e ∷ []) ∷ [] }

abbrev pub appended : Element → Split → Split
appended e s = record s { chunk = s.chunk ++ e ∷ []; chunk_bytes = s.chunk_bytes + (e.size + 2) }

-- The body of the loop.
unfoldable pub place : Split → Element → Split
place s e =
    let n = e.size + 2 in
    if ltb archive_read_chunk_bytes n
    then alone e (close_chunk s)
    else if ltb archive_read_chunk_bytes (s.chunk_bytes + n) && nonempty s.chunk
    then appended e (close_chunk s)
    else appended e s

unfoldable pub place_all : Split → List Element → Split
unfolding place
place_all s [] = s
place_all s (e ∷ es) = place_all (place s e) es

-- An empty list gives no chunk, by the loop as by the early return.
unfoldable pub split_archive_read_list : List Element → List (List Element)
unfolding place_all
split_archive_read_list es =
    (close_chunk (place_all (record { chunks = []; chunk = []; chunk_bytes = 0 }) es)).chunks
