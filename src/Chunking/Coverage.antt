-- ===== src/Chunking/Coverage.antt =====
-- How the chunks cover the words of the document.
use road_vision_ai.Base.{
  ℕ, zero, suc, ◌+◌, ◌-◌, ◌≤◌, ◌<◌, ◌≡◌, refl, sym, ap, ◌∙◌, inl, inr, List, [], ◌∷◌, ◌++◌, some,
  ok, err, value_error, arith, leb, length, take, drop, All, length-take, length-drop,
  take-append-drop, take_all, Bool-cases,
}
use road_vision_ai.Text.{Text}
use road_vision_ai.Chunking.{
  Chunk, Word, words_from, chunk_of, chunk_loop, or_out_of_fuel, chunk_pages,
}

-- The chunks of some windows, numbered from `index`.
unfoldable pub chunks_of : ℕ → List (List Word) → List Chunk
chunks_of index [] = []
chunks_of index (w ∷ ws) = chunk_of index w ∷ chunks_of (index + 1) ws

-- The words of the windows, each without the last `overlap` words if another window follows.
unfoldable pub reassemble {ℓ} : {A : Type ℓ} → ℕ → List (List A) → List A
reassemble overlap [] = []
reassemble overlap (w ∷ []) = w
reassemble overlap (w ∷ v ∷ ws) = take (length w - overlap) w ++ reassemble overlap (v ∷ ws)

-- Each window begins with the last `overlap` words of the one before it.
abbrev pub Overlaps {ℓ} : {A : Type ℓ} → ℕ → List (List A) → Type ℓ
Overlaps overlap [] = Unit
Overlaps overlap (w ∷ []) = Unit
Overlaps overlap (w ∷ v ∷ ws) =
    (take overlap v ≡ drop (length w - overlap) w) × Overlaps overlap (v ∷ ws)

module _ {ℓ} {A : Type ℓ} where
  pub take-take : (m n : ℕ) (xs : List A) → m ≤ n → take m (take n xs) ≡ take m xs
  take-take zero n xs h = refl
  take-take (suc m) zero xs h = absurd (omega arith)
  take-take (suc m) (suc n) [] h = refl
  take-take (suc m) (suc n) (x ∷ xs) h = ap (λ l. x ∷ l) (take-take m n xs (omega arith))

  drop-nil : (n : ℕ) → drop {A = A} n [] ≡ []
  drop-nil zero = refl
  drop-nil (suc n) = refl

  take-nil : (n : ℕ) → take {A = A} n [] ≡ []
  take-nil zero = refl
  take-nil (suc n) = refl

  drop-drop : (m n k : ℕ) (xs : List A) → k ≡ m + n → drop n (drop m xs) ≡ drop k xs
  drop-drop zero n k xs e = ap (λ j. drop j xs) (omega arith)
  drop-drop (suc m) n k [] e = drop-nil n ∙ sym (drop-nil k)
  drop-drop (suc m) n zero (x ∷ xs) e = absurd (omega arith)
  drop-drop (suc m) n (suc k) (x ∷ xs) e = drop-drop m n k xs (omega arith)

  drop-take : (m n k : ℕ) (xs : List A) → k ≡ m + n → drop m (take k xs) ≡ take n (drop m xs)
  drop-take zero n k xs e = ap (λ j. take j xs) (omega arith)
  drop-take (suc m) n k [] e = rw (take-nil k) (sym (take-nil n))
  drop-take (suc m) n zero (x ∷ xs) e = absurd (omega arith)
  drop-take (suc m) n (suc k) (x ∷ xs) e = drop-take m n k xs (omega arith)

  -- A window holds at least one word and at most `size`.
  abbrev pub Fits : ℕ → List A → Type 0
  Fits size w = (0 < length w) × (length w ≤ size)

  -- The windows together are `rest`, each fits, and each overlaps the next.
  pub record IsCover (size overlap : ℕ) (rest : List A) (ws : List (List A)) : Type ℓ where
    pub whole : reassemble overlap ws ≡ rest
    pub overlaps : Overlaps overlap ws
    pub fits : All (λ w. (0 < length w) × (length w ≤ size)) ws

  module _ (size overlap : ℕ) (step_pos : overlap < size) where
    take-Fits :
        (rest : List A)
        → 0 < length rest
        → (0 < length (take size rest)) × (length (take size rest) ≤ size)
    take-Fits rest h = omega (arith, length-take size rest)

    IsCover-last :
        (rest : List A)
        → 0 < length rest
        → length rest ≤ size
        → IsCover size overlap rest (take size rest ∷ [])
    unfolding reassemble
    IsCover-last rest h le = record {
      whole = take_all size rest le;
      overlaps = tt;
      fits = (take-Fits rest h, tt);
    }

    IsCover-next :
        (rest : List A) (ws : List (List A))
        → size < length rest
        → IsCover size overlap
            (drop (size - overlap) rest)
            (take size (drop (size - overlap) rest) ∷ ws)
        → IsCover size overlap rest (take size rest ∷ take size (drop (size - overlap) rest) ∷ ws)
    unfolding reassemble
    IsCover-next rest ws lt c =
        let full : length (take size rest) ≡ size = omega (arith, length-take size rest) in
        record {
          whole =
              rw (full, take-take (size - overlap) size rest (omega arith), c.whole)
                (take-append-drop (size - overlap) rest);
          overlaps = (
            rw (full, take-take overlap size (drop (size - overlap) rest) (omega arith))
                (sym (drop-take (size - overlap) overlap size rest (omega arith))),
            c.overlaps,
          );
          fits = (take-Fits rest (omega arith), c.fits);
        }

module _ (size overlap : ℕ) (step_pos : overlap < size) (words : List Word) where
  window_at : ℕ → List Word
  window_at start = take size (drop start words)

  loop-IsCover :
      (fuel start index : ℕ)
      → length words - start < fuel
      → start < length words
      → (ws : List (List Word)) × (chunk_loop fuel size (size - overlap) words start index
          ≡ some (chunks_of index (take size (drop start words) ∷ ws)))
        × IsCover size overlap (drop start words) (take size (drop start words) ∷ ws)
  unfolding chunk_loop chunks_of
  loop-IsCover zero start index m h = absurd (omega arith)
  loop-IsCover (suc fuel) start index m h = elim (Bool-cases (leb (length words) (start + size))) [
    | inl e ↦ (
      [],
      ground (arith, e),
      IsCover-last size overlap step_pos (drop start words) (omega (arith, length-drop start words))
          (let fits : length words ≤ start + size = ground (arith, e) in
            omega (arith, length-drop start words)),
    )
    | inr e ↦
        let more : start + size < length words = ground (arith, e) in
        let again : drop (size - overlap) (drop start words)
            ≡ drop (start + (size - overlap)) words =
          drop-drop start (size - overlap) (start + (size - overlap)) words refl in
        let (ws, p, c) =
          loop-IsCover fuel (start + (size - overlap)) (index + 1) (omega arith) (omega arith) in
        (
          take size (drop (start + (size - overlap)) words) ∷ ws,
          ground (arith, e, p),
          rw (← again) (
              IsCover-next size overlap step_pos (drop start words) ws
                (omega (arith, length-drop start words)) (rw (← again) at c)),
        )
  ]

chunk_words_lem :
    (size overlap : ℕ) (words : List Word)
    → overlap < size
    → (ws : List (List Word)) × (or_out_of_fuel
          (chunk_loop (suc (length words)) size (size - overlap) words 0 0)
        ≡ ok (chunks_of 0 ws))
      × IsCover size overlap words ws
unfolding or_out_of_fuel chunk_loop chunks_of reassemble
chunk_words_lem size overlap [] h = ([], refl, record { whole = refl; overlaps = tt; fits = tt })
chunk_words_lem size overlap (w ∷ words) h =
    let (ws, p, c) =
      loop-IsCover size overlap h (w ∷ words) (suc (suc (length words))) 0 0 (omega arith)
        (omega arith) in
    (take size (w ∷ words) ∷ ws, ap or_out_of_fuel p, c)

-- With an overlap below the chunk size `chunk_pages` returns, and its chunks are those of windows
-- of the document's words, numbered from 0, such that: every window has between one word and
-- `chunk_size` words; each begins with the last `overlap` words of the one before it; and the
-- windows without these repeated words are exactly the words of the document, in order.
pub chunk_pages_lem :
    (pages : List Text) (size overlap : ℕ)
    → overlap < size
    → (ws : List (List Word)) × (chunk_pages pages size overlap ≡ ok (chunks_of 0 ws))
      × IsCover size overlap (words_from 1 pages) ws
unfolding chunk_pages
chunk_pages_lem pages size overlap h =
    let (ws, p, c) = chunk_words_lem size overlap (words_from 1 pages) h in
    (ws, ground (arith, p), c)

-- A chunk size that is not above the overlap is refused with ValueError, whatever the pages.
pub chunk_pages_refused :
    (pages : List Text) (size overlap : ℕ)
    → size ≤ overlap
    → chunk_pages pages size overlap ≡ err value_error
unfolding chunk_pages
chunk_pages_refused pages size overlap h = ground arith
