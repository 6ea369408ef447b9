-- ===== src/Text.antt =====
-- Texts by their code points: Python's order of `str`, and the string methods that the program
-- calls (`split`, `join`, `in`).
use Prim.Native.Char.{code}
use road_vision_ai.Base.{
  ℕ, String, ◌≡◌, refl, Bool, true, false, ◌&&◌, ◌||◌, List, [], ◌∷◌, ◌++◌, arith, ltb, leb, ◌==◌,
  ==_refl, if◌then◌else◌,
}

-- The code points of a text.
abbrev pub Text : Type 0
Text = List ℕ

abbrev pub codes : String → Text
codes String.[] = []
codes (String.◌∷◌ c s) = code c ∷ codes s

-- `a < b` on texts: the first code points that differ decide, else the shorter is less.
unfoldable pub text_lt : Text → Text → Bool
text_lt [] [] = false
text_lt [] (b ∷ t) = true
text_lt (a ∷ s) [] = false
text_lt (a ∷ s) (b ∷ t) = if ltb a b then true else if ltb b a then false else text_lt s t

pub text_lt_asym : (s t : Text) → text_lt s t ≡ true → text_lt t s ≡ false
unfolding text_lt
text_lt_asym [] [] h = cc
text_lt_asym [] (b ∷ t) h = refl
text_lt_asym (a ∷ s) [] h = cc
text_lt_asym (a ∷ s) (b ∷ t) h = ground (arith, text_lt_asym s t)

pub text_lt_weak : (s t u : Text) → text_lt s t ≡ false → text_lt t u ≡ false → text_lt s u ≡ false
unfolding text_lt
text_lt_weak [] [] [] h k = refl
text_lt_weak [] [] (c ∷ u) h k = k
text_lt_weak [] (b ∷ t) u h k = cc
text_lt_weak (a ∷ s) t [] h k = refl
text_lt_weak (a ∷ s) [] (c ∷ u) h k = cc
text_lt_weak (a ∷ s) (b ∷ t) (c ∷ u) h k = ground (arith, text_lt_weak s t u)

unfoldable pub text_eq : Text → Text → Bool
text_eq [] [] = true
text_eq [] (b ∷ t) = false
text_eq (a ∷ s) [] = false
text_eq (a ∷ s) (b ∷ t) = a == b && text_eq s t

pub text_eq_refl : (t : Text) → text_eq t t ≡ true
unfolding text_eq
text_eq_refl [] = refl
text_eq_refl (a ∷ t) = rw (==_refl a, text_eq_refl t) refl

pub text_eq-append : (p s t : Text) → text_eq (p ++ s) (p ++ t) ≡ text_eq s t
unfolding text_eq
text_eq-append [] s t = refl
text_eq-append (a ∷ p) s t = rw (==_refl a, text_eq-append p s t) refl

-- `str.isspace` of one character.
unfoldable pub is_space : ℕ → Bool
is_space c =
    (leb 9 c && leb c 13)
    || (leb 28 c && leb c 32)
    || c == 0x85
    || c == 0xa0
    || c == 0x1680
    || (leb 0x2000 c && leb c 0x200a)
    || c == 0x2028
    || c == 0x2029
    || c == 0x202f
    || c == 0x205f
    || c == 0x3000

-- The run that is being read, after one more character.
next_word : Text → ℕ → Text
next_word word c = if is_space c then [] else word ++ c ∷ []

-- White space ends a run that is not empty.
ended : Text → ℕ → List Text → List Text
ended [] c rest = rest
ended (w ∷ ws) c rest = if is_space c then (w ∷ ws) ∷ rest else rest

-- `word` holds the characters of the word that is being read, in order.
split_from : Text → Text → List Text
unfolding next_word ended
split_from [] [] = []
split_from (w ∷ ws) [] = (w ∷ ws) ∷ []
split_from word (c ∷ s) = ended word c (split_from (next_word word c) s)

-- `s.split()`: the maximal runs of characters that are no white space.
unfoldable pub split : Text → List Text
unfolding split_from is_space
split = split_from []

-- `" ".join(words)`
unfoldable pub join_words : List Text → Text
join_words [] = []
join_words (w ∷ []) = w
join_words (w ∷ v ∷ ws) = w ++ 32 ∷ join_words (v ∷ ws)

unfoldable pub is_prefix : Text → Text → Bool
is_prefix [] t = true
is_prefix (a ∷ s) [] = false
is_prefix (a ∷ s) (b ∷ t) = a == b && is_prefix s t

-- `part in whole` on texts.
unfoldable pub is_substring : Text → Text → Bool
unfolding is_prefix
is_substring part [] = is_prefix part []
is_substring part (c ∷ s) = is_prefix part (c ∷ s) || is_substring part s

split_runs : split (codes "  ab c ") ≡ codes "ab" ∷ codes "c" ∷ []
unfolding split
split_runs = refl

-- `s.lstrip()`
unfoldable pub lstrip : Text → Text
unfolding is_space
lstrip [] = []
lstrip (c ∷ s) = let rest = lstrip s in if is_space c then rest else c ∷ s

-- `s.rstrip()`: white space at the end is dropped.
rstrip : Text → Text
rstrip [] = []
rstrip (c ∷ s) = elim (rstrip s) [ [] ↦ if is_space c then [] else c ∷ [] | d ∷ t ↦ c ∷ d ∷ t ]

-- `s.strip()`
unfoldable pub strip : Text → Text
unfolding rstrip
strip s = rstrip (lstrip s)

strip_runs : strip (codes "  ab c ") ≡ codes "ab c"
unfolding strip lstrip
strip_runs = refl
