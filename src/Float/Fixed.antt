-- ===== src/Float/Fixed.antt =====
-- Non-negative fixed-point numbers, in millionths: a concrete `Float` for tests and witnesses.
use road_vision_ai.Base.{
  ℕ, suc, refl, List, [], ◌∷◌, All, length, ◌+◌, ◌-◌, ◌*◌, ◌/◌, ◌^◌, ◌≤◌, ◌≡◌, true, ltb, leb, ◌==◌,
  arith,
}
use road_vision_ai.Float.{Float, IsOrdered}
use road_vision_ai.Float.Sums.{IsArithmetic}

abbrev pub Fixed : Type 0
Fixed = ℕ

-- Rounds half up at a unit.
abbrev round_to : ℕ → ℕ → ℕ
round_to u x = (x + u / 2) / u * u

abbrev total : List Fixed → Fixed
total [] = 0
total (x ∷ xs) = x + total xs

instance abbrev pub fixed : Float Fixed
fixed = record {
  lit = λ n k. n * 1000000 / 10 ^ k;
  add = λ x y. x + y;
  sub = λ x y. x - y;
  mul = λ x y. x * y / 1000000;
  div = λ x y. x * 1000000 / y;
  lt = ltb;
  le = leb;
  eq = λ x y. x == y;
  round = λ x digits. round_to (10 ^ (6 - digits)) x;
  cents = λ x. (x + 5000) / 10000;
  sum = total;
  of_cents = λ c. c * 10000;
}

div_mono : (m n d : ℕ) → m ≤ n → m / d ≤ n / d
div_mono m n d h = grind arith

lit_mono : (m n k : ℕ) → m ≤ n → leb (m * 1000000 / 10 ^ k) (n * 1000000 / 10 ^ k) ≡ true
lit_mono m n k h = ground (arith, div_mono (m * 1000000) (n * 1000000) (10 ^ k) (omega arith))

pub Fixed-IsOrdered : IsOrdered Fixed
Fixed-IsOrdered = record {
  lt_le = λ x y h. ground arith;
  lt-not-le = λ x y h. ground arith;
  lt-number = λ x y h. ground arith;
  not_lt_le = λ x y h k l. ground arith;
  le_trans = λ x y z h k. ground arith;
  lt-ne = λ x y h. ground arith;
  lit_mono = lit_mono;
  lit_pos = λ n. ground arith;
  cents_mono = λ x y h k. ground arith;
  cents-lit = λ n h. omega arith;
  lit_wide = λ n. omega arith;
  round_mono = λ x y h. ground arith;
  round-lit = λ n. omega arith;
}

quotient_small : (x n : ℕ) → x ≤ suc n * 1000000 → x * 1000000 / (suc n * 1000000) ≤ 1000000
quotient_small x n h = grind arith

product_small : (x y : ℕ) → x ≤ 1000000 → y ≤ 1000000 → x * y / 1000000 ≤ 1000000
product_small x y h k = grind arith

total_small :
    (xs : List Fixed)
    → All (λ x. (leb 0 x ≡ true) × (leb x 1000000 ≡ true)) xs
    → leb (total xs) (length xs * 1000000 / 1) ≡ true
total_small [] a = refl
total_small (x ∷ xs) a = ground (arith, a, total_small xs a.1)

pub Fixed-IsArithmetic : IsArithmetic Fixed
Fixed-IsArithmetic = record {
  lt-le-trans = λ x y z h k. ground arith;
  lit_nonneg = λ n k. ground arith;
  lit_small = refl;
  add_nonneg = λ x y h k. ground arith;
  mul_nonneg = λ x y h k l m. ground arith;
  mul_unit = λ x y h k l m. ground (arith, product_small x y);
  lit_tenths = λ n h. ground arith;
  sum_unit = λ xs a. (ground arith, total_small xs a);
  div_unit = λ x n h k. (ground arith, ground (arith, quotient_small x n));
}
