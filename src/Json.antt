-- ===== src/Json.antt =====
-- JSON values as `json.loads` returns them, and the conversions and tests that the program makes.
-- What belongs to Python's library and to no source file (parsing of texts, number formats) is
-- the interface `Python`.
use road_vision_ai.Base.{
  ℕ, Bool, true, false, String, List, Option, none, some, Result, ok, err, type_error, ltb, str_eq,
  if◌then◌else◌,
}
use road_vision_ai.Text.{Text, codes, is_substring}
use road_vision_ai.Float.{Float}

-- `negsuc n` is -(n + 1).
pub data ℤ : Type 0 where
  pos : ℕ → ℤ
  negsuc : ℕ → ℤ

mutual
  pub data Json (W : Type 0) : Type 0 where
    null : Json W
    bool : Bool → Json W
    int : ℤ → Json W
    real : W → Json W
    str : String → Json W
    arr : Items W → Json W
    obj : Fields W → Json W

  pub data Items (W : Type 0) : Type 0 where
    nil : Items W
    cons : Json W → Items W → Items W

  pub data Fields (W : Type 0) : Type 0 where
    end : Fields W
    field : String → Json W → Fields W → Fields W

-- An argument of `str.format`: a text, or a count that the template may format.
pub data FormatArg : Type 0 where
  text : Text → FormatArg
  count : ℕ → FormatArg

-- W is the type of floats, D that of Decimals.
pub record Python (W D : Type 0) : Type 0 where
  -- `json.loads`; `none` stands for JSONDecodeError
  pub loads : String → Option (Json W)
  pub float_of_int : ℤ → W
  pub float_of_text : String → Result W
  pub int_of_float : W → Result ℤ
  pub int_of_text : String → Result ℤ
  -- `Decimal(str(value))`
  pub decimal : Json W → Result D
  -- `f"{x:.2f}"`
  pub format_2f : W → Text
  -- `template.format(**fields)`
  pub format : Text → List (String × FormatArg) → Result Text

module _ {W : Type 0} where
  -- `d.get(key)` and `key in d` on an object
  unfoldable pub get_field : String → Fields W → Option (Json W)
  get_field k end = none
  get_field k (field j v fs) = if str_eq j k then some v else get_field k fs

  is_item : String → Items W → Bool
  is_item s nil = false
  is_item s (cons (str t) xs) = if str_eq t s then true else is_item s xs
  is_item s (cons x xs) = is_item s xs

  has_field : String → Fields W → Bool
  has_field k end = false
  has_field k (field j v fs) = if str_eq j k then true else has_field k fs

  -- `text in value`
  unfoldable pub contains : Json W → String → Result Bool
  unfolding is_item has_field
  contains (str t) s = ok (is_substring (codes s) (codes t))
  contains (arr xs) s = ok (is_item s xs)
  contains (obj fs) s = ok (has_field s fs)
  contains v s = err type_error

module _ {W D : Type 0} ⦃f : Float W⦄ (py : Python W D) where
  -- `float(value)`
  unfoldable pub float_of : Json W → Result W
  float_of (bool b) = ok (if b then f.lit 1 0 else f.lit 0 0)
  float_of (int n) = ok (py.float_of_int n)
  float_of (real x) = ok x
  float_of (str s) = py.float_of_text s
  float_of v = err type_error

  -- `int(value)`
  unfoldable pub int_of : Json W → Result ℤ
  int_of (bool b) = ok (ℤ.pos (if b then 1 else 0))
  int_of (int n) = ok n
  int_of (real x) = py.int_of_float x
  int_of (str s) = py.int_of_text s
  int_of v = err type_error

-- `n < k` for a count n
unfoldable pub count_lt : ℕ → ℤ → Bool
count_lt n (ℤ.pos k) = ltb n k
count_lt n (ℤ.negsuc k) = false
