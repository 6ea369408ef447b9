-- ===== src/Float.antt =====
-- Python's `float` as the program uses it. Its arithmetic is not code of the repository, so it is
-- an interface: the operations, and what IEEE 754 and `decimal` say of them.
pub mod Fixed
pub mod Sums
use road_vision_ai.Base.{
  ℕ, suc, ◌*◌, ◌≤◌, ◌≡◌, Bool, true, false, List, [], ◌∷◌, Result, ok, err, zero_division, arith,
  if◌then◌else◌,
}

pub record Float (W : Type 0) : Type 0 where
  -- The number nearest to n / 10 ^ k: a literal such as 0.35 is `lit 35 2`.
  pub lit : ℕ → ℕ → W
  pub add : W → W → W
  pub sub : W → W → W
  pub mul : W → W → W
  pub div : W → W → W
  pub lt : W → W → Bool
  pub le : W → W → Bool
  pub eq : W → W → Bool
  -- `round(x, digits)`
  pub round : W → ℕ → W
  -- `Decimal(str(x)).quantize(Decimal("0.01"), ROUND_HALF_UP)` in hundredths, for x ≥ 0
  pub cents : W → ℕ
  -- `sum(xs)` of floats, which Python compensates for the rounding errors since 3.12
  pub sum : List W → W
  -- `float(d)` of a Decimal with two places, given in hundredths
  pub of_cents : ℕ → W

-- A NaN is a value that is not `<=` itself; no law but `lt_le` and `lt-not-le` speaks of it, but `lt-number`, by which it is
-- greater than nothing.
pub record IsOrdered (W : Type 0) ⦃f : Float W⦄ : Type 0 where
  pub lt_le : (x y : W) → f.lt x y ≡ true → f.le x y ≡ true
  pub lt-not-le : (x y : W) → f.lt x y ≡ true → f.le y x ≡ false
  pub lt-number : (x y : W) → f.lt x y ≡ true → f.le y y ≡ true
  pub not_lt_le : (x y : W) → f.le x x ≡ true → f.le y y ≡ true → f.lt x y ≡ false → f.le y x ≡ true
  pub le_trans : (x y z : W) → f.le x y ≡ true → f.le y z ≡ true → f.le x z ≡ true
  pub lt-ne : (x y : W) → f.lt x y ≡ true → f.eq y x ≡ false
  pub lit_mono : (m n k : ℕ) → m ≤ n → f.le (f.lit m k) (f.lit n k) ≡ true
  pub lit_pos : (n : ℕ) → f.lt (f.lit 0 0) (f.lit (suc n) 0) ≡ true
  pub cents_mono : (x y : W) → f.le x y ≡ true → f.le y (f.lit 100 0) ≡ true → f.cents x ≤ f.cents y
  pub cents-lit : (n : ℕ) → n ≤ 100 → f.cents (f.lit n 0) ≡ 100 * n
  -- A number with four decimal places is its own rounding.
  pub lit_wide : (n : ℕ) → f.lit (10000 * n) 4 ≡ f.lit n 0
  pub round_mono : (x y : W) → f.le x y ≡ true → f.le (f.round x 4) (f.round y 4) ≡ true
  pub round-lit : (n : ℕ) → f.round (f.lit n 4) 4 ≡ f.lit n 4

module _ {W : Type 0} ⦃f : Float W⦄ where
  -- The built-in `min(a, b)` and `max(a, b)`: the first argument, unless the second is better.
  unfoldable pub py_min : W → W → W
  py_min a b = if f.lt b a then b else a

  unfoldable pub py_max : W → W → W
  py_max a b = if f.lt a b then b else a

  -- `a / b`
  unfoldable pub py_div : W → W → Result W
  py_div a b = if f.eq b (f.lit 0 0) then err zero_division else ok (f.div a b)

  abbrev pub zero_f : W
  zero_f = f.lit 0 0

  abbrev pub one_f : W
  one_f = f.lit 1 0

  abbrev pub hundred_f : W
  hundred_f = f.lit 100 0

  module _ (laws : IsOrdered W) where
    -- `max(0.0, min(top, x))` lies between 0.0 and `top` for every x, a NaN included.
    pub clamp_bounds :
        (n : ℕ) (x : W)
        → (f.le zero_f (py_max zero_f (py_min (f.lit n 0) x)) ≡ true)
          × (f.le (py_max zero_f (py_min (f.lit n 0) x)) (f.lit n 0) ≡ true)
    unfolding py_min py_max
    clamp_bounds n x = ground (
      arith,
      laws.lt_le x (f.lit n 0),
      laws.lt_le (f.lit 0 0) x,
      laws.lt_le (f.lit 0 0) (f.lit n 0),
      laws.lit_mono 0 n 0,
      laws.lit_mono n n 0,
      laws.lit_mono 0 0 0,
    )
