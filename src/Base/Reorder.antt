-- ===== src/Base/Reorder.antt =====
-- `sorted` does not depend on the order of its input, if the order tells all elements apart.
use mathlib.Core.Path.{◌≡◌, refl, sym, ◌∙◌}
use mathlib.Core.Logic.Or
use mathlib.Core.Logic.{inl, inr}
use mathlib.Core.Bool.{Bool, true, false, ◌||◌}
use mathlib.Core.List.Permᴰ
use mathlib.Core.List.{
  List, [], ◌∷◌, Permᴰ, Pairwise, Mem, mem-cons, mem-cons_of_mem, mem-cons_self,
}
use native.Mathlib.Omega.{arith}
use road_vision_ai.Base.Tests.{Bool-cases}
use road_vision_ai.Base.Lists.{select}
use road_vision_ai.Base.Sort.{insert, sorted}

module _ {ℓ} {A : Type ℓ} (before : A → A → Bool)
    (asym : (x y : A) → before x y ≡ true → before y x ≡ false)
    (weak : (x y z : A) → before x y ≡ false → before y z ≡ false → before x z ≡ false) where
  insert_comm_lt :
      (x y : A) (l : List A)
      → before x y ≡ true
      → insert before x (insert before y l) ≡ insert before y (insert before x l)
  unfolding insert
  insert_comm_lt x y [] h = ground (arith, asym x y h)
  insert_comm_lt x y (z ∷ l) h = ground (
    arith,
    asym x y h,
    insert_comm_lt x y l h,
    weak z x y,
    asym y x,
    weak x z y,
    asym x z,
    weak z y x,
    weak y x z,
    asym z x,
    asym z y,
    asym y z,
    weak x y z,
    weak y z x,
  )

  abbrev pub Apart : A → A → Type 0
  Apart x y = (before x y || before y x) ≡ true

  Apart-symm : (x y : A) → Apart x y → Apart y x
  Apart-symm x y h = ground arith

  insert_comm :
      (x y : A) (l : List A)
      → Apart x y
      → insert before x (insert before y l) ≡ insert before y (insert before x l)
  insert_comm x y l h = elim (Bool-cases (before x y)) [
    | inl e ↦ insert_comm_lt x y l e
    | inr e ↦ sym (insert_comm_lt y x l (ground arith))
  ]

  pub sorted-permᴰ :
      (xs ys : List A) → Permᴰ xs ys → Pairwise Apart xs → sorted before xs ≡ sorted before ys
  unfolding sorted
  sorted-permᴰ [] [] Permᴰ.nil h = refl
  sorted-permᴰ (a ∷ xs) (b ∷ ys) (Permᴰ.cons e p) (Pairwise.cons u h) =
      cc (e, sorted-permᴰ xs ys p h)
  sorted-permᴰ (a ∷ b ∷ l) (a' ∷ b' ∷ m) (Permᴰ.swap e e') (Pairwise.cons u h) =
      cc (insert_comm a b (sorted before l) (u b mem-cons_self), e, e')
  sorted-permᴰ xs zs (Permᴰ.trans {l₂ = ys} p q) h =
      sorted-permᴰ xs ys p h ∙ sorted-permᴰ ys zs q (Permᴰ.pairwise (λ x y. hlevel) Apart-symm p h)

module _ {ℓ} {A : Type ℓ} (p : A → Bool) where
  pub select-permᴰ : (xs ys : List A) → Permᴰ xs ys → Permᴰ (select p xs) (select p ys)
  select-permᴰ [] [] Permᴰ.nil = Permᴰ.nil
  select-permᴰ (a ∷ xs) (b ∷ ys) (Permᴰ.cons e d) = elim (Bool-cases (p a)) [
    | inl t ↦ rw (← e, t) (Permᴰ.cons refl (select-permᴰ xs ys d))
    | inr t ↦ rw (← e, t) (select-permᴰ xs ys d)
  ]
  select-permᴰ (a ∷ b ∷ l) (a' ∷ b' ∷ m) (Permᴰ.swap e e') = elim (Bool-cases (p a)) [
    | inl t ↦ elim (Bool-cases (p b)) [
      | inl u ↦ rw (← e, ← e', t, u) (Permᴰ.swap refl refl)
      | inr u ↦ rw (← e, ← e', t, u) (Permᴰ.refl _)
    ]
    | inr t ↦ elim (Bool-cases (p b)) [
      | inl u ↦ rw (← e, ← e', t, u) (Permᴰ.refl _)
      | inr u ↦ rw (← e, ← e', t, u) (Permᴰ.refl _)
    ]
  ]
  select-permᴰ xs zs (Permᴰ.trans {l₂ = ys} c d) =
      Permᴰ.trans (select-permᴰ xs ys c) (select-permᴰ ys zs d)

  mem-select : (a : A) (xs : List A) → Mem a (select p xs) → Mem a xs
  mem-select a [] m = m
  mem-select a (x ∷ xs) m = elim (Bool-cases (p x)) [
    | inl t ↦ mem-cons.1 (Or.imp (λ e. e) (mem-select a xs) (mem-cons.0 (rw t at m)))
    | inr t ↦ mem-cons_of_mem x (mem-select a xs (rw t at m))
  ]

  pub select-Pairwise {κ} :
      {R : A → A → Type κ} (xs : List A) → Pairwise R xs → Pairwise R (select p xs)
  select-Pairwise [] h = h
  select-Pairwise (x ∷ xs) (Pairwise.cons u h) = elim (Bool-cases (p x)) [
    | inl t ↦ rw t (Pairwise.cons (λ y m. u y (mem-select y xs m)) (select-Pairwise xs h))
    | inr t ↦ rw t (select-Pairwise xs h)
  ]
