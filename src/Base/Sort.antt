-- ===== src/Base/Sort.antt =====
-- Python's `sorted`: stable, by a test `before x y` that says x must stand before y.
use mathlib.Core.Path.{◌≡◌}
use mathlib.Core.Logic.{inl, inr}
use mathlib.Core.Bool.{Bool, true, false}
use mathlib.Core.List.{List, [], ◌∷◌, Perm}
use mathlib.Core.List.Perm
use native.Mathlib.Omega.{arith}
use road_vision_ai.Base.Tests.{if◌then◌else◌, Bool-cases}
use road_vision_ai.Base.Lists.{All}

module _ {ℓ} {A : Type ℓ} (before : A → A → Bool) where
  -- x passes the elements that are strictly before it.
  unfoldable pub insert : A → List A → List A
  insert x [] = x ∷ []
  insert x (y ∷ ys) = if before y x then y ∷ insert x ys else x ∷ y ∷ ys

  -- The last element is inserted first, so equal elements keep their order.
  unfoldable pub sorted : List A → List A
  unfolding insert
  sorted [] = []
  sorted (x ∷ xs) = insert x (sorted xs)

  -- No element stands strictly before one that the list has earlier.
  abbrev pub IsOrdered : List A → Type 0
  IsOrdered [] = Unit
  IsOrdered (x ∷ xs) = All (λ y. before y x ≡ false) xs × IsOrdered xs

  pub insert-perm : (x : A) (xs : List A) → Perm (insert x xs) (x ∷ xs)
  unfolding insert
  insert-perm x [] = Perm.refl (x ∷ [])
  insert-perm x (y ∷ ys) = elim (Bool-cases (before y x)) [
    | inl e ↦ rw e (Perm.trans (Perm.cons y (insert-perm x ys)) (Perm.swap x y ys))
    | inr e ↦ rw e (Perm.refl (x ∷ y ∷ ys))
  ]

  pub sorted-perm : (xs : List A) → Perm (sorted xs) xs
  unfolding sorted
  sorted-perm [] = Perm.refl []
  sorted-perm (x ∷ xs) = Perm.trans (insert-perm x (sorted xs)) (Perm.cons x (sorted-perm xs))

  insert-All {κ} : (P : A → Type κ) (x : A) (xs : List A) → P x → All P xs → All P (insert x xs)
  unfolding insert
  insert-All P x [] p ps = (p, tt)
  insert-All P x (y ∷ ys) p ps = ground (arith, insert-All P x ys p ps.1)

  pub sorted-All {κ} : (P : A → Type κ) (xs : List A) → All P xs → All P (sorted xs)
  unfolding sorted
  sorted-All P [] ps = tt
  sorted-All P (x ∷ xs) ps = insert-All P x (sorted xs) ps.0 (sorted-All P xs ps.1)

  module _ (asym : (x y : A) → before x y ≡ true → before y x ≡ false)
      (weak : (x y z : A) → before x y ≡ false → before y z ≡ false → before x z ≡ false) where
    above :
        (x y : A) (l : List A)
        → before y x ≡ false
        → All (λ z. before z y ≡ false) l
        → All (λ z. before z x ≡ false) l
    above x y [] e h = tt
    above x y (z ∷ l) e h = (weak z y x h.0 e, above x y l e h.1)

    insert-IsOrdered : (x : A) (xs : List A) → IsOrdered xs → IsOrdered (insert x xs)
    unfolding insert
    insert-IsOrdered x [] h = (tt, tt)
    insert-IsOrdered x (y ∷ ys) h = elim (Bool-cases (before y x)) [
      | inl e ↦
          rw e
            (insert-All (λ z. before z y ≡ false) x ys (asym y x e) h.0, insert-IsOrdered x ys h.1)
      | inr e ↦ rw e ((e, above x y ys e h.0), h)
    ]

    pub sorted-IsOrdered : (xs : List A) → IsOrdered (sorted xs)
    unfolding sorted
    sorted-IsOrdered [] = tt
    sorted-IsOrdered (x ∷ xs) = insert-IsOrdered x (sorted xs) (sorted-IsOrdered xs)
