-- ===== src/Base/Lists.antt =====
-- Lists measured by native numbers, and Boolean filters and searches that run in a test.
use Prim.Native.Nat.{ℕ, zero, suc, ◌+◌, ◌-◌, ◌≤◌, min}
use mathlib.Core.Path.{◌≡◌, refl, ap}
use mathlib.Core.Bool.{Bool, true, false, ◌&&◌, ◌||◌}
use mathlib.Core.List.{List, [], ◌∷◌, ◌++◌, map, Memᴰ}
use mathlib.Core.Option.{Option, none, some}
use native.Mathlib.Omega.{arith}
use mathlib.Core.Option
use mathlib.Core.Logic.{inl, inr}
use road_vision_ai.Base.Tests.{if◌then◌else◌, Bool-cases}

module _ {ℓ} {A : Type ℓ} where
  abbrev pub length : List A → ℕ
  length [] = 0
  length (x ∷ xs) = suc (length xs)

  abbrev pub take : ℕ → List A → List A
  take zero xs = []
  take (suc n) [] = []
  take (suc n) (x ∷ xs) = x ∷ take n xs

  abbrev pub drop : ℕ → List A → List A
  drop zero xs = xs
  drop (suc n) [] = []
  drop (suc n) (x ∷ xs) = drop n xs

  -- The elements that pass a test, in order.
  abbrev pub select : (A → Bool) → List A → List A
  select p [] = []
  select p (x ∷ xs) = if p x then x ∷ select p xs else select p xs

  -- The first element that passes a test.
  abbrev pub find : (A → Bool) → List A → Option A
  find p [] = none
  find p (x ∷ xs) = if p x then some x else find p xs

  abbrev pub any : (A → Bool) → List A → Bool
  any p [] = false
  any p (x ∷ xs) = p x || any p xs

  abbrev pub all : (A → Bool) → List A → Bool
  all p [] = true
  all p (x ∷ xs) = p x && all p xs

  abbrev pub All {κ} : (A → Type κ) → List A → Type κ
  All P [] = Unit
  All P (x ∷ xs) = P x × All P xs

  pub length-append : (xs ys : List A) → length (xs ++ ys) ≡ length xs + length ys
  length-append [] ys = omega arith
  length-append (x ∷ xs) ys = omega (arith, length-append xs ys)

  pub length-take : (n : ℕ) (xs : List A) → length (take n xs) ≡ min n (length xs)
  length-take zero xs = omega arith
  length-take (suc n) [] = omega arith
  length-take (suc n) (x ∷ xs) = omega (arith, length-take n xs)

  pub length-drop : (n : ℕ) (xs : List A) → length (drop n xs) ≡ length xs - n
  length-drop zero xs = omega arith
  length-drop (suc n) [] = omega arith
  length-drop (suc n) (x ∷ xs) = omega (arith, length-drop n xs)

  pub take-append-drop : (n : ℕ) (xs : List A) → take n xs ++ drop n xs ≡ xs
  take-append-drop zero xs = refl
  take-append-drop (suc n) [] = refl
  take-append-drop (suc n) (x ∷ xs) = ap (λ l. x ∷ l) (take-append-drop n xs)

  pub take_all : (n : ℕ) (xs : List A) → length xs ≤ n → take n xs ≡ xs
  take_all zero [] h = refl
  take_all zero (x ∷ xs) h = absurd (omega arith)
  take_all (suc n) [] h = refl
  take_all (suc n) (x ∷ xs) h = ap (λ l. x ∷ l) (take_all n xs (omega arith))

  pub select-append :
      (p : A → Bool) (xs ys : List A) → select p (xs ++ ys) ≡ select p xs ++ select p ys
  select-append p [] ys = refl
  select-append p (x ∷ xs) ys = ground (arith, select-append p xs ys)

  pub select-select : (p : A → Bool) (xs : List A) → select p (select p xs) ≡ select p xs
  select-select p [] = refl
  select-select p (x ∷ xs) = ground (arith, select-select p xs)

pub length-map {ℓ κ} :
    {A : Type ℓ} {B : Type κ} (f : A → B) (xs : List A) → length (map f xs) ≡ length xs
length-map f [] = refl
length-map f (x ∷ xs) = ap suc (length-map f xs)

module _ {ℓ κ} {A : Type ℓ} {B : Type κ} (g : A → B) (p : A → Bool) (q : B → Bool)
    (same : (x : A) → q (g x) ≡ p x) where
  pub find-map : (xs : List A) → find q (map g xs) ≡ Option.map g (find p xs)
  find-map [] = refl
  find-map (x ∷ xs) = rw (same x) (ground (arith, find-map xs))

  pub any-map : (xs : List A) → any q (map g xs) ≡ any p xs
  any-map [] = refl
  any-map (x ∷ xs) = rw (same x, any-map xs) refl

  pub select-map : (xs : List A) → select q (map g xs) ≡ map g (select p xs)
  select-map [] = refl
  select-map (x ∷ xs) = rw (same x) (ground (arith, select-map xs))

module _ {ℓ} {A : Type ℓ} where
  pub find_sound : (p : A → Bool) (xs : List A) {x : A} → find p xs ≡ some x → p x ≡ true
  find_sound p [] h = cc
  find_sound p (y ∷ xs) {x} h = ground (arith, find_sound p xs {x = x})

  -- What a search finds passes every test that holds of it.
  -- What is found among selected elements has been selected.
  pub find-select_sound :
      (p q : A → Bool) (xs : List A) {x : A} → find p (select q xs) ≡ some x → q x ≡ true
  find-select_sound p q [] h = cc
  find-select_sound p q (y ∷ xs) {x} h = ground (arith, find-select_sound p q xs {x = x})

  pub any-find :
      (p q : A → Bool) (xs : List A) {x : A} → find p xs ≡ some x → q x ≡ true → any q xs ≡ true
  any-find p q [] h k = cc
  any-find p q (y ∷ xs) {x} h k = ground (arith, any-find p q xs {x = x})

  pub any-select : (p q : A → Bool) (xs : List A) → any q (select p xs) ≡ true → any q xs ≡ true
  any-select p q [] h = h
  any-select p q (y ∷ xs) h = ground (arith, any-select p q xs)

  pub find-All {κ} :
      (P : A → Type κ) (p : A → Bool) (xs : List A) {x : A} → All P xs → find p xs ≡ some x → P x
  find-All P p [] a h = cc
  find-All P p (y ∷ xs) {x} a h = elim (Bool-cases (p y)) [
    | inl e ↦ let same : y ≡ x = cc (rw e at h) in rw (← same) a.0
    | inr e ↦ find-All P p xs a.1 (rw e at h)
  ]

  pub select-All {κ} :
      (P : A → Type κ) (p : A → Bool) (xs : List A) → All P xs → All P (select p xs)
  select-All P p [] a = tt
  select-All P p (y ∷ xs) a = elim (Bool-cases (p y)) [
    | inl e ↦ rw e (a.0, select-All P p xs a.1)
    | inr e ↦ rw e (select-All P p xs a.1)
  ]

pub All-map {ℓ κ μ} :
    {A : Type ℓ} {P : A → Type κ} {Q : A → Type μ} (xs : List A)
    → ((x : A) → P x → Q x)
    → All P xs
    → All Q xs
All-map [] f a = tt
All-map (x ∷ xs) f a = (f x a.0, All-map xs f a.1)

pub All-append {ℓ κ} :
    {A : Type ℓ} (P : A → Type κ) (xs ys : List A) → All P xs → All P ys → All P (xs ++ ys)
All-append P [] ys a b = b
All-append P (x ∷ xs) ys a b = (a.0, All-append P xs ys a.1 b)

pub All-Memᴰ {ℓ κ} :
    {A : Type ℓ} (P : A → Type κ) (xs : List A) {x : A} → All P xs → Memᴰ x xs → P x
All-Memᴰ P [] a m = elim m [ ]
All-Memᴰ P (x ∷ xs) a (Memᴰ.head e) = rw e a.0
All-Memᴰ P (x ∷ xs) a (Memᴰ.tail m) = All-Memᴰ P xs a.1 m
