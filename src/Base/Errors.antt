-- ===== src/Base/Errors.antt =====
-- The exceptions that the modelled code raises, and computations that may raise one.
-- The texts of the messages are not modelled; an HTTPException keeps its status code.
use Prim.Native.Nat.{ℕ}
use Prim.Native.String.{String}
use mathlib.Core.Path.{◌≡◌, refl}
use mathlib.Core.Logic.{◌⊎◌, inl, inr}
use mathlib.Core.Option.{Option, none, some}
use mathlib.Core.Bool.{Bool, true, false}

pub data Exn : Type 0 where
  value_error type_error key_error attribute_error zero_division not_implemented : Exn
  runtime_error token_error json_decode_error integrity_error database_error : Exn
  rule_format_error : String → Exn
  http : ℕ → Exn

pub data Result {ℓ} (T : Type ℓ) : Type ℓ where
  err : Exn → Result T
  ok : T → Result T

infixl 5 ◌>>=◌
abbrev pub ◌>>=◌ {ℓ κ} : {T : Type ℓ} {U : Type κ} → Result T → (T → Result U) → Result U
err e >>= rest = err e
ok x >>= rest = rest x

-- `if test: raise e`
abbrev pub raise_if : Bool → Exn → Result (Unit {0})
raise_if true e = err e
raise_if false e = ok tt

-- A call returns a value.
abbrev pub Returns {ℓ} : {A : Type ℓ} → Result A → Type ℓ
Returns {A} r = (a : A) × (r ≡ ok a)

-- To split on a computed result and keep the equation.
pub Result-cases {ℓ} :
    {A : Type ℓ} (r : Result A) → ((e : Exn) × (r ≡ err e)) ⊎ ((a : A) × (r ≡ ok a))
Result-cases (err e) = inl (e, refl)
Result-cases (ok a) = inr (a, refl)

-- The exception of a call that raises.
abbrev pub exn_of {ℓ} : {A : Type ℓ} → Result A → Option Exn
exn_of (ok a) = none
exn_of (err e) = some e

module _ {ℓ κ} {A : Type ℓ} {C : Type κ} where
  -- A sequence that returns has returned from both of its parts.
  pub >>=-eq-ok :
      (r : Result A) (rest : A → Result C) {c : C}
      → (r >>= rest) ≡ ok c
      → (x : A) × (r ≡ ok x) × (rest x ≡ ok c)
  >>=-eq-ok (err e) rest returned = cc
  >>=-eq-ok (ok x) rest returned = (x, refl, returned)
