-- ===== src/Chunking/Fuel.antt =====
-- About the fuel of the chunker's loop (backend/app/ai/rag/chunking.py).
use road_vision_ai.Base.{
  ℕ, zero, suc, ◌+◌, ◌<◌, ◌≡◌, refl, inl, inr, List, [], ◌∷◌, some, arith, leb, ltb, length, take,
  drop, Bool-cases,
}
use road_vision_ai.Chunking.{Chunk, Word, chunk_of, chunk_loop}

module _ (size step : ℕ) (words : List Word) (advances : 0 < step) where
  -- The loop ends within the fuel that covers the words that are left, and any such fuel leads to the
  -- same chunks.
  fuel_covers :
      (fuel more start index : ℕ)
      → 0 < fuel
      → length words < start + fuel
      → (cs : List Chunk) × (chunk_loop fuel size step words start index ≡ some cs)
        × (chunk_loop (fuel + more) size step words start index ≡ some cs)
  unfolding chunk_loop
  fuel_covers zero more start index h k = absurd (omega arith)
  fuel_covers (suc fuel) more start index h k =
      let grown : suc fuel + more ≡ suc (fuel + more) = omega arith in
      let chunk = chunk_of index (take size (drop start words)) in
      elim (Bool-cases (ltb start (length words))) [
        | inr e ↦ ([], rw e refl, rw (grown, e) refl)
        | inl e ↦ elim (Bool-cases (leb (length words) (start + size))) [
          | inl e' ↦ (chunk ∷ [], rw (e, e') refl, rw (grown, e, e') refl)
          | inr e' ↦
              let (cs, here, there) =
                fuel_covers fuel more (start + step) (index + 1) (ground (arith, e))
                  (ground (arith, e)) in
              (chunk ∷ cs, rw (e, e', here) refl, rw (grown, e, e', there) refl)
        ]
      ]

  -- The chunker's loop terminates if its window advances: fuel of one more than the number of words
  -- lets it end with a list of chunks, and any further fuel changes nothing, so the fuel stands for
  -- no behaviour of the code.
  pub chunk_loop-fuel :
      (more : ℕ)
      → (cs : List Chunk) × (chunk_loop (suc (length words)) size step words 0 0 ≡ some cs)
        × (chunk_loop (suc (length words) + more) size step words 0 0 ≡ some cs)
  chunk_loop-fuel more = fuel_covers (suc (length words)) more 0 0 (omega arith) (omega arith)
