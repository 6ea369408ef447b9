-- ===== src/Float/Sums.antt =====
-- Further laws of IEEE 754, on numbers that are not negative, and the sums and means of numbers of
-- the unit interval.
use road_vision_ai.Base.{ℕ, suc, ◌≤◌, ◌≡◌, true, List, ◌∷◌, All, length, arith}
use road_vision_ai.Float.{Float, IsOrdered, py_min}

pub record IsArithmetic (W : Type 0) ⦃f : Float W⦄ : Type 0 where
  pub lt-le-trans : (x y z : W) → f.lt x y ≡ true → f.le y z ≡ true → f.lt x z ≡ true
  pub lit_nonneg : (n k : ℕ) → f.le (f.lit 0 0) (f.lit n k) ≡ true
  pub lit_small : f.lt (f.lit 0 0) (f.lit 1 4) ≡ true
  pub add_nonneg :
      (x y : W)
      → f.le (f.lit 0 0) x ≡ true
      → f.le (f.lit 0 0) y ≡ true
      → f.le (f.lit 0 0) (f.add x y) ≡ true
  -- Numbers of at most 10: of an infinity and 0 the product would be a NaN.
  pub mul_nonneg :
      (x y : W)
      → f.le (f.lit 0 0) x ≡ true
      → f.le x (f.lit 10 0) ≡ true
      → f.le (f.lit 0 0) y ≡ true
      → f.le y (f.lit 10 0) ≡ true
      → f.le (f.lit 0 0) (f.mul x y) ≡ true
  pub mul_unit :
      (x y : W)
      → f.le (f.lit 0 0) x ≡ true
      → f.le x (f.lit 1 0) ≡ true
      → f.le (f.lit 0 0) y ≡ true
      → f.le y (f.lit 1 0) ≡ true
      → f.le (f.mul x y) (f.lit 1 0) ≡ true
  -- A number of at most 0.6 is one of at most 10.
  pub lit_tenths : (n : ℕ) → n ≤ 6 → f.le (f.lit n 1) (f.lit 10 0) ≡ true
  -- The sum of numbers of the unit interval, compensated or not.
  pub sum_unit :
      (xs : List W)
      → All (λ x. (f.le (f.lit 0 0) x ≡ true) × (f.le x (f.lit 1 0) ≡ true)) xs
      → (f.le (f.lit 0 0) (f.sum xs) ≡ true) × (f.le (f.sum xs) (f.lit (length xs) 0) ≡ true)
  pub div_unit :
      (x : W) (n : ℕ)
      → f.le (f.lit 0 0) x ≡ true
      → f.le x (f.lit (suc n) 0) ≡ true
      → (f.le (f.lit 0 0) (f.div x (f.lit (suc n) 0)) ≡ true)
        × (f.le (f.div x (f.lit (suc n) 0)) (f.lit 1 0) ≡ true)

module _ {W : Type 0} ⦃f : Float W⦄ where
  -- A number of the unit interval.
  abbrev pub InUnit : W → Type 0
  InUnit x = (f.le (f.lit 0 0) x ≡ true) × (f.le x (f.lit 1 0) ≡ true)

  pub min_nonneg :
      (x y : W)
      → f.le (f.lit 0 0) x ≡ true
      → f.le (f.lit 0 0) y ≡ true
      → f.le (f.lit 0 0) (py_min x y) ≡ true
  unfolding py_min
  min_nonneg x y h k = ground arith

  pub min_one : (laws : IsOrdered W) (y : W) → f.le (py_min (f.lit 1 0) y) (f.lit 1 0) ≡ true
  unfolding py_min
  min_one laws y = ground (arith, laws.lt_le y (f.lit 1 0), laws.lit_mono 1 1 0)

  module _ (more : IsArithmetic W) where
    -- The mean of numbers of the unit interval lies there.
    pub mean-InUnit :
        (x : W) (xs : List W)
        → All InUnit (x ∷ xs)
        → InUnit (f.div (f.sum (x ∷ xs)) (f.lit (length (x ∷ xs)) 0))
    mean-InUnit x xs a = let s = more.sum_unit (x ∷ xs) a in more.div_unit _ (length xs) s.0 s.1
