-- ===== src/Base/Keys.antt =====
-- Lists with distinct keys, what a selection leaves out, and lists related element by element.
use Prim.Native.Nat.{ℕ}
use mathlib.Core.Path.{◌≡◌, refl}
use mathlib.Core.Bool.{Bool, true, false, not}
use mathlib.Core.List.{List, [], ◌∷◌, ◌++◌}
use mathlib.Core.Logic.{inl, inr}
use native.Mathlib.Omega.{arith}
use road_vision_ai.Base.Tests.{◌==◌, ==_refl, Bool-cases}
use road_vision_ai.Base.Lists.{All, All-append, All-map, any, select, select-All}

module _ {ℓ} {A : Type ℓ} where
  -- No two elements have the same key.
  abbrev pub UniqueBy : (A → ℕ) → List A → Type 0
  UniqueBy key [] = Unit
  UniqueBy key (x ∷ xs) = All (λ y. (key y == key x) ≡ false) xs × UniqueBy key xs

  pub UniqueBy-select :
      (key : A → ℕ) (p : A → Bool) (xs : List A) → UniqueBy key xs → UniqueBy key (select p xs)
  UniqueBy-select key p [] u = tt
  UniqueBy-select key p (x ∷ xs) u = elim (Bool-cases (p x)) [
    | inl e ↦ rw e (select-All _ p xs u.0, UniqueBy-select key p xs u.1)
    | inr e ↦ rw e (UniqueBy-select key p xs u.1)
  ]

  pub UniqueBy-append :
      (key : A → ℕ) (x : A) (xs : List A)
      → UniqueBy key xs
      → All (λ y. (key y == key x) ≡ false) xs
      → UniqueBy key (xs ++ x ∷ [])
  UniqueBy-append key x [] u a = (tt, tt)
  UniqueBy-append key x (y ∷ ys) u a =
      (All-append _ ys (x ∷ []) u.0 (ground (arith, a.0), tt), UniqueBy-append key x ys u.1 a.1)

  -- What a selection leaves out.
  pub select_out :
      (p : A → Bool) (xs : List A) → All (λ x. p x ≡ false) (select (λ x. not (p x)) xs)
  select_out p [] = tt
  select_out p (x ∷ xs) = elim (Bool-cases (p x)) [
    | inl e ↦ rw e (select_out p xs)
    | inr e ↦ rw e (e, select_out p xs)
  ]

  pub select_none : (p : A → Bool) (xs : List A) → All (λ x. p x ≡ false) xs → select p xs ≡ []
  select_none p [] a = refl
  select_none p (x ∷ xs) a = rw a.0 (select_none p xs a.1)

  -- Every element is there, by its key.
  pub any_own : (key : A → ℕ) (xs : List A) → All (λ x. any (λ y. key y == key x) xs ≡ true) xs
  any_own key [] = tt
  any_own key (x ∷ xs) =
      (ground (arith, ==_refl (key x)), All-map xs (λ y h. ground (arith, h)) (any_own key xs))

  -- The only element that passes is the last.
  pub select_last :
      (p : A → Bool) (xs : List A) (x : A)
      → All (λ y. p y ≡ false) xs
      → p x ≡ true
      → select p (xs ++ x ∷ []) ≡ x ∷ []
  select_last p [] x a h = rw h refl
  select_last p (y ∷ ys) x a h = rw a.0 (select_last p ys x a.1 h)

-- Two lists of the same length whose elements are related one by one.
abbrev pub All2 {ℓ κ} : {A : Type ℓ} {B : Type κ} → (A → B → Type 0) → List A → List B → Type 0
All2 R [] [] = Unit
All2 R [] (y ∷ ys) = ⊥
All2 R (x ∷ xs) [] = ⊥
All2 R (x ∷ xs) (y ∷ ys) = R x y × All2 R xs ys

pub All2-append {ℓ κ} :
    {A : Type ℓ} {B : Type κ} (R : A → B → Type 0) (xs : List A) (ys : List B) (xs' : List A)
    (ys' : List B)
    → All2 R xs ys
    → All2 R xs' ys'
    → All2 R (xs ++ xs') (ys ++ ys')
All2-append R [] [] xs' ys' h k = k
All2-append R [] (y ∷ ys) xs' ys' h k = absurd h
All2-append R (x ∷ xs) [] xs' ys' h k = absurd h
All2-append R (x ∷ xs) (y ∷ ys) xs' ys' h k = (h.0, All2-append R xs ys xs' ys' h.1 k)
