-- ===== src/Tests/Documents.antt =====
-- Examples of the chunker, of storage paths and of the detector's clamps.
use road_vision_ai.Base.{suc, ◌+◌, length, some, ◌≤◌, ◌≡◌, refl, List, [], ◌∷◌, ok, arith, All}
use road_vision_ai.Text.{Text, codes}
use road_vision_ai.Float.Fixed.{Fixed, fixed, Fixed-IsOrdered}
use road_vision_ai.Chunking.{Chunk, Word, words_from, chunk_loop, chunk_pages}
use road_vision_ai.Chunking.Fuel.{chunk_loop-fuel}
use road_vision_ai.Chunking.Coverage.{chunks_of, IsCover, chunk_pages_lem}
use road_vision_ai.Chunking.Pages.{chunk_pages-IsCitable}
use road_vision_ai.Storage.{StoredObject, storage_path, partition, partition-storage_path}
use road_vision_ai.Detection.{Box, detect}
use road_vision_ai.Detection.Bounds.{IsInBounds, detect-IsInBounds}

abbrev pages : List Text
pages = codes "a b c" ∷ codes "d e" ∷ []

chunk_pages_lem_example :
    (ws : List (List Word)) × (chunk_pages pages 3 1 ≡ ok (chunks_of 0 ws))
    × IsCover 3 1 (words_from 1 pages) ws
chunk_pages_lem_example = chunk_pages_lem pages 3 1 (omega arith)

chunk_loop-fuel_example :
    (cs : List Chunk) × (chunk_loop (suc (length (words_from 1 pages))) 3 2 (words_from 1 pages) 0 0
      ≡ some cs)
    × (chunk_loop (suc (length (words_from 1 pages)) + 7) 3 2 (words_from 1 pages) 0 0 ≡ some cs)
chunk_loop-fuel_example = chunk_loop-fuel 3 2 (words_from 1 pages) (omega arith) 7

-- Two chunks: a b c and c d e.
chunks : (cs : List Chunk) × (chunk_pages pages 3 1 ≡ ok cs)
unfolding chunk_pages words_from chunk_loop road_vision_ai.Text.split
chunks = (_, refl)

chunk_pages-IsCitable_example :
    All (λ c. (1 ≤ c.page_start) × (c.page_start ≤ c.page_end) × (c.page_end ≤ 2)) chunks.0
chunk_pages-IsCitable_example = chunk_pages-IsCitable pages 3 1 {cs = chunks.0} chunks.1

abbrev stored : StoredObject
stored = record { bucket = codes "models"; object_name = codes "yolo/1/best.pt" }

partition-storage_path_example :
    partition (storage_path stored) ≡ (codes "models", codes "yolo/1/best.pt")
partition-storage_path_example =
    partition-storage_path stored (refl, (refl, (refl, (refl, (refl, (refl, tt))))))

-- A box that reaches over the image's edge.
abbrev box : Box Fixed
box = record {
  class_name = "pothole";
  conf = 876543;
  xc = 100000;
  yc = 500000;
  w = 1200000;
  h = 20;
}

detect-IsInBounds_example : All IsInBounds (detect (λ s. s) [] (box ∷ []))
detect-IsInBounds_example = detect-IsInBounds Fixed-IsOrdered (λ s. s) [] (box ∷ [])
