-- ===== src/Tests/CollectorTests.antt =====
-- Runs of the collector's list functions, and their theorems at concrete lists.
use vkt7d.Common.{ℕ, ◌≡◌, refl, List, [], ◌∷◌, All}
use vkt7d.Model.{Element}
use vkt7d.Collector.Split.{split_archive_read_list, close_chunk}
use vkt7d.Collector.Split.Bounds.{flat, IsChunk, split_archive_read_list-chunks}

abbrev sized : ℕ → Element
sized n = record { address = n; name = ""; size = n }

abbrev wide : List Element
wide = sized 30 ∷ sized 28 ∷ sized 100 ∷ sized 4 ∷ sized 50 ∷ sized 10 ∷ []

wide_chunks :
    split_archive_read_list wide
    ≡ (sized 30 ∷ [])
      ∷ (sized 28 ∷ [])
      ∷ (sized 100 ∷ [])
      ∷ (sized 4 ∷ sized 50 ∷ [])
      ∷ (sized 10 ∷ [])
      ∷ []
unfolding split_archive_read_list close_chunk
wide_chunks = refl

split_archive_read_list-chunks_example :
    (flat (split_archive_read_list wide) ≡ wide) × All IsChunk (split_archive_read_list wide)
split_archive_read_list-chunks_example = split_archive_read_list-chunks wide
