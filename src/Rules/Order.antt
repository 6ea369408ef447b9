-- ===== src/Rules/Order.antt =====
-- About the order of the rows that the database hands over.
use Prim.Native.Char.{IsScalar}
use mathlib.Core.Logic.{∥∥₁_elim}
use mathlib.Core.List.{Perm, Permᴰ, Pairwise}
use text.Mathlib.TextEquality.{Char-path, IsScalar-prop}
use road_vision_ai.Base.{ℕ, ◌≡◌, refl, ap, ◌≢◌, false, String, List, [], ◌∷◌, arith}
use road_vision_ai.Base.Reorder.{Apart, sorted-permᴰ, select-permᴰ, select-Pairwise}
use road_vision_ai.Text.{codes, text_lt}
use road_vision_ai.Float.{Float}
use road_vision_ai.Json.{Python}
use road_vision_ai.Rules.{AnalysisContext, Rule, key_lt, first_match, evaluate}
use road_vision_ai.Rules.FirstMatch.{key_lt_asym, key_lt_weak, ordered}

codes-injective : (s t : String) → codes s ≡ codes t → s ≡ t
codes-injective String.[] String.[] h = refl
codes-injective String.[] (String.◌∷◌ d t) h = cc
codes-injective (String.◌∷◌ c s) String.[] h = cc
codes-injective (String.◌∷◌ c s) (String.◌∷◌ d t) h =
    cc (Char-path c d (cc), codes-injective s t (cc))

text_lt_total : (s t : List ℕ) → text_lt s t ≡ false → text_lt t s ≡ false → s ≡ t
unfolding text_lt
text_lt_total [] [] h k = refl
text_lt_total [] (b ∷ t) h k = cc
text_lt_total (a ∷ s) [] h k = cc
text_lt_total (a ∷ s) (b ∷ t) h k = ground (arith, text_lt_total s t)

abbrev pub CodesDiffer : Rule → Rule → Type 0
CodesDiffer r s = r.code ≢ s.code

CodesDiffer-Apart : (r s : Rule) → CodesDiffer r s → Apart key_lt key_lt_asym key_lt_weak r s
unfolding key_lt
CodesDiffer-Apart r s h =
    ground (arith, text_lt_total (codes r.code) (codes s.code), codes-injective r.code s.code, h)

Pairwise-Apart :
    (rules : List Rule)
    → Pairwise CodesDiffer rules
    → Pairwise (Apart key_lt key_lt_asym key_lt_weak) rules
Pairwise-Apart [] Pairwise.nil = Pairwise.nil
Pairwise-Apart (r ∷ rs) (Pairwise.cons u h) =
    Pairwise.cons (λ s m. CodesDiffer-Apart r s (u s m)) (Pairwise-Apart rs h)

ordered-permᴰ :
    (rules rules' : List Rule)
    → Pairwise CodesDiffer rules
    → Permᴰ rules rules'
    → ordered rules ≡ ordered rules'
unfolding ordered
ordered-permᴰ rules rules' h d =
    sorted-permᴰ key_lt key_lt_asym key_lt_weak _ _
      (select-permᴰ (λ (r : Rule). r.is_active) rules rules' d)
      (select-Pairwise (λ (r : Rule). r.is_active) _ (Pairwise-Apart rules h))

IsScalar-set : (n : ℕ) → IsSet (IsScalar n)
IsScalar-set n = hlevel IsScalar-prop

rules-set : IsSet (List Rule)
rules-set = hlevel IsScalar-set

module _ {W D : Type 0} ⦃f : Float W⦄ (py : Python W D) (ctx : AnalysisContext W) where
  -- With distinct codes, `evaluate` gives the same decision or the same exception for any two
  -- orders of the rules.
  pub evaluate-perm :
      (rules rules' : List Rule)
      → Pairwise (λ r s. r.code ≢ s.code) rules
      → Perm rules rules'
      → evaluate py rules ctx ≡ evaluate py rules' ctx
  unfolding evaluate ordered
  evaluate-perm rules rules' h p =
      ap (λ l. first_match py l ctx) (∥∥₁_elim p (rules-set _ _) (ordered-permᴰ rules rules' h))
