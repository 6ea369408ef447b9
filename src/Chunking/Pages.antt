-- ===== src/Chunking/Pages.antt =====
-- The page numbers of the chunks, by which passages are cited.
use road_vision_ai.Base.{
  ℕ, zero, suc, ◌+◌, ◌-◌, ◌≤◌, ◌<◌, ◌≡◌, inl, inr, List, [], ◌∷◌, ◌++◌, map, Option, some, none,
  ltb, leb, length-take, length-drop, Bool-cases, Option-cases, ok, arith, length, take, drop, All,
}
use road_vision_ai.Text.{Text, split}
use road_vision_ai.Chunking.{
  Chunk, Word, words_from, first_page, last_page, chunk_of, chunk_loop, or_out_of_fuel, chunk_pages,
}

-- The page numbers lie between two bounds and never fall.
abbrev pub IsPaged : ℕ → ℕ → List Word → Type 0
IsPaged low high [] = Unit
IsPaged low high ((w, p) ∷ ws) = (low ≤ p) × (p ≤ high) × IsPaged p high ws

IsPaged-weaken :
    (low low' high : ℕ) (ws : List Word) → low' ≤ low → IsPaged low high ws → IsPaged low' high ws
IsPaged-weaken low low' high [] h v = tt
IsPaged-weaken low low' high ((w, p) ∷ ws) h v = (omega arith, v.1, v.2)

IsPaged-append :
    (low mid high : ℕ) (xs : List Text) (ys : List Word)
    → low ≤ mid
    → mid ≤ high
    → IsPaged mid high ys
    → IsPaged low high (map (λ w. (w, mid)) xs ++ ys)
IsPaged-append low mid high [] ys h k v = IsPaged-weaken mid low high ys h v
IsPaged-append low mid high (x ∷ xs) ys h k v =
    (h, k, IsPaged-append mid mid high xs ys (omega arith) k v)

words_from-IsPaged :
    (n high : ℕ) (pages : List Text)
    → n + length pages ≤ high + 1
    → IsPaged n high (words_from n pages)
unfolding words_from
words_from-IsPaged n high [] h = tt
words_from-IsPaged n high (page ∷ pages) h =
    IsPaged-append n n high (split page) (words_from (n + 1) pages) (omega arith) (omega arith) (
      IsPaged-weaken (n + 1) n high (words_from (n + 1) pages) (omega arith)
        (words_from-IsPaged (n + 1) high pages (omega arith)))

take-IsPaged :
    (k low high : ℕ) (ws : List Word) → IsPaged low high ws → IsPaged low high (take k ws)
take-IsPaged zero low high ws v = tt
take-IsPaged (suc k) low high [] v = tt
take-IsPaged (suc k) low high ((w, p) ∷ ws) v = (v.0, v.1, take-IsPaged k p high ws v.2)

drop-IsPaged :
    (k low high : ℕ) (ws : List Word) → IsPaged low high ws → IsPaged low high (drop k ws)
drop-IsPaged zero low high ws v = v
drop-IsPaged (suc k) low high [] v = tt
drop-IsPaged (suc k) low high ((w, p) ∷ ws) v =
    IsPaged-weaken p low high (drop k ws) v.0 (drop-IsPaged k p high ws v.2)

last_page_bounds :
    (low high p : ℕ) (w : Text) (ws : List Word)
    → IsPaged low high ((w, p) ∷ ws)
    → (p ≤ last_page ((w, p) ∷ ws)) × (last_page ((w, p) ∷ ws) ≤ high)
unfolding last_page
last_page_bounds low high p w [] v = (omega arith, v.1)
last_page_bounds low high p w ((u, q) ∷ ws) v =
    let ih = last_page_bounds p high q u ws v.2 in omega (arith, ih.0, ih.1, v.2.0)

-- What a citation of a chunk needs: pages that exist, in order.
abbrev pub IsCitable : ℕ → Chunk → Type 0
IsCitable n c = (1 ≤ c.page_start) × (c.page_start ≤ c.page_end) × (c.page_end ≤ n)

chunk_of-IsCitable :
    (n index : ℕ) (ws : List Word)
    → 0 < length ws
    → IsPaged 1 n ws
    → IsCitable n (chunk_of index ws)
unfolding chunk_of first_page
chunk_of-IsCitable n index [] h v = absurd (omega arith)
chunk_of-IsCitable n index ((w, p) ∷ ws) h v =
    let b = last_page_bounds 1 n p w ws v in (v.0, b.0, b.1)

loop-IsCitable :
    (n size step : ℕ) (words : List Word)
    → 0 < size
    → IsPaged 1 n words
    → (fuel start index : ℕ) (cs : List Chunk)
    → chunk_loop fuel size step words start index ≡ some cs
    → All (IsCitable n) cs
unfolding chunk_loop
loop-IsCitable n size step words pos v zero start index cs h = cc
loop-IsCitable n size step words pos v (suc fuel) start index cs h =
    elim (Bool-cases (ltb start (length words))) [
      | inr e ↦ let q : [] ≡ cs = cc (rw e at h) in rw (← q) tt
      | inl e ↦
          let here : IsCitable n (chunk_of index (take size (drop start words))) =
            chunk_of-IsCitable n index (take size (drop start words))
              (let lt : start < length words = ground (arith, e) in
                omega (arith, length-take size (drop start words), length-drop start words))
              (take-IsPaged size 1 n (drop start words) (drop-IsPaged start 1 n words v)) in
          elim (Bool-cases (leb (length words) (start + size))) [
            | inl e' ↦
                let q : chunk_of index (take size (drop start words)) ∷ [] ≡ cs =
                  cc (rw (e, e') at h) in
                rw (← q) (here, tt)
            | inr e' ↦
                elim (Option-cases (chunk_loop fuel size step words (start + step) (index + 1))) [
                  | inl x ↦ cc (rw (e, e', x) at h)
                  | inr (ds, x) ↦
                      let q : chunk_of index (take size (drop start words)) ∷ ds ≡ cs =
                        cc (rw (e, e', x) at h) in
                      rw (← q) (
                        here,
                        loop-IsCitable n size step words pos v fuel (start + step) (index + 1) ds x,
                      )
                ]
          ]
    ]

or_out_of_fuel-ok :
    (o : Option (List Chunk)) {cs : List Chunk} → or_out_of_fuel o ≡ ok cs → o ≡ some cs
unfolding or_out_of_fuel
or_out_of_fuel-ok none h = cc
or_out_of_fuel-ok (some ds) h = cc

-- Every chunk of `chunk_pages` names pages of the document: its first page is at least 1, its last
-- page is not before its first, and not after the number of pages.
pub chunk_pages-IsCitable :
    (pages : List Text) (size overlap : ℕ) {cs : List Chunk}
    → chunk_pages pages size overlap ≡ ok cs
    → All (λ c. (1 ≤ c.page_start) × (c.page_start ≤ c.page_end) × (c.page_end ≤ length pages)) cs
unfolding chunk_pages
chunk_pages-IsCitable pages size overlap {cs} h = elim (Bool-cases (leb size overlap)) [
  | inl e ↦ cc (rw e at h)
  | inr e ↦
      let words = words_from 1 pages in
      loop-IsCitable (length pages) size (size - overlap) words (ground (arith, e))
        (words_from-IsPaged 1 (length pages) pages (omega arith)) (suc (length words)) 0 0 cs
        (or_out_of_fuel-ok _ (rw e at h))
]
