-- ===== src/Chunking.antt =====
-- The word-window chunker (backend/app/ai/rag/chunking.py).
pub mod Coverage
pub mod Pages
pub mod Fuel
use road_vision_ai.Base.{
  ℕ, zero, suc, ◌+◌, ◌-◌, Bool, List, [], ◌∷◌, ◌++◌, map, Option, none, some, Result, ok, err,
  value_error, runtime_error, ltb, leb, length, take, drop, if◌then◌else◌,
}
use mathlib.Core.Option
use road_vision_ai.Text.{Text, split, join_words}

pub record Chunk : Type 0 where
  pub text : Text
  pub index : ℕ
  pub page_start : ℕ
  pub page_end : ℕ

-- A word with the number of its page.
abbrev pub Word : Type 0
Word = Text × ℕ

-- The words of all pages, which are numbered from `page_num`.
unfoldable pub words_from : ℕ → List Text → List Word
words_from page_num [] = []
words_from page_num (page ∷ pages) =
    map (λ w. (w, page_num)) (split page) ++ words_from (page_num + 1) pages

-- `window[0][1]` and `window[-1][1]`; no window is empty.
unfoldable pub first_page : List Word → ℕ
first_page [] = 0
first_page ((w, p) ∷ ws) = p

unfoldable pub last_page : List Word → ℕ
last_page [] = 0
last_page ((w, p) ∷ []) = p
last_page (w ∷ v ∷ ws) = last_page (v ∷ ws)

unfoldable pub chunk_of : ℕ → List Word → Chunk
unfolding first_page last_page
chunk_of index window = record {
  text = join_words (map (λ (w : Word). w.0) window);
  index = index;
  page_start = first_page window;
  page_end = last_page window;
}

-- The `while` loop, from a start and an index, on fuel; `none` means that the fuel ran out.
unfoldable pub chunk_loop : ℕ → ℕ → ℕ → List Word → ℕ → ℕ → Option (List Chunk)
chunk_loop zero size step words start index = none
chunk_loop (suc fuel) size step words start index =
    let window = take size (drop start words) in
    let rest =
      Option.map (λ cs. chunk_of index window ∷ cs)
        (chunk_loop fuel size step words (start + step) (index + 1)) in
    if ltb start (length words)
    then (if leb (length words) (start + size) then some (chunk_of index window ∷ []) else rest)
    else some []

-- Fuel that ran out would show as `runtime_error`.
or_out_of_fuel {ℓ} : {A : Type ℓ} → Option A → Result A
or_out_of_fuel none = err runtime_error
or_out_of_fuel (some a) = ok a

-- Without words the loop is not entered, so the early return needs no case of its own.
unfoldable pub chunk_pages : List Text → ℕ → ℕ → Result (List Chunk)
unfolding or_out_of_fuel
chunk_pages pages chunk_size overlap =
    let words = words_from 1 pages in
    if leb chunk_size overlap
    then err value_error
    else or_out_of_fuel
        (chunk_loop (suc (length words)) chunk_size (chunk_size - overlap) words 0 0)
