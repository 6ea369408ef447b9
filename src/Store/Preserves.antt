-- ===== src/Store/Preserves.antt =====
-- Invariants of the world: predicates that an action keeps, whether it returns or raises. One rule
-- for each way to build an action.
use road_vision_ai.Base.{Bool, true, false, Option, none, some, Exn, Result, err, ok, if◌then◌else◌}
use road_vision_ai.Store.State.{Db, World}
use road_vision_ai.Store.Actions.{
  Exec, pure, lift, query, gets, or_raise, raise_when, raise_fault, ◌>>=◌, ◌>>◌,
}

pub record Preserves {W D A : Type 0} (P : World W D → Type 0) (m : Exec W D A) : Type 0 where
  pub at : (s : World W D) → P s → P (m s).1

module _ {W D : Type 0} {P : World W D → Type 0} where
  pub Preserves-pure : {A : Type 0} (a : A) → Preserves P (pure a)
  Preserves-pure a = record { at = λ s p. p }

  pub Preserves-lift : {A : Type 0} (r : Result A) → Preserves P (lift r)
  Preserves-lift r = record { at = λ s p. p }

  pub Preserves-query : {A : Type 0} (g : Db W D → A) → Preserves P (query g)
  Preserves-query g = record { at = λ s p. p }

  pub Preserves-gets : {A : Type 0} (g : World W D → A) → Preserves P (gets g)
  Preserves-gets g = record { at = λ s p. p }

  pub Preserves-or_raise : {A : Type 0} (o : Option A) (e : Exn) → Preserves P (or_raise o e)
  Preserves-or_raise none e = record { at = λ s p. p }
  Preserves-or_raise (some a) e = record { at = λ s p. p }

  pub Preserves-raise_when : (test : Bool) (e : Exn) → Preserves P (raise_when test e)
  Preserves-raise_when test e = record { at = λ s p. p }

  pub Preserves-raise_fault : (o : Option Exn) → Preserves P (raise_fault o)
  Preserves-raise_fault none = record { at = λ s p. p }
  Preserves-raise_fault (some e) = record { at = λ s p. p }

  after :
      {A B : Type 0} (f : A → Exec W D B)
      → ((a : A) → Preserves P (f a))
      → (r : Result A) (t : World W D) → P t
      → P ((let k : Exec W D A = λ x. (r, x) in k >>= f) t).1
  after f kf (err e) t p = p
  after f kf (ok a) t p = (kf a).at t p

  pub Preserves-bind :
      {A B : Type 0} (m : Exec W D A) (f : A → Exec W D B)
      → Preserves P m
      → ((a : A) → Preserves P (f a))
      → Preserves P (m >>= f)
  Preserves-bind m f km kf = record { at = λ s p. after f kf (m s).0 (m s).1 (km.at s p) }

  pub Preserves-then :
      {A B : Type 0} (m : Exec W D A) (k : Exec W D B)
      → Preserves P m
      → Preserves P k
      → Preserves P (m >> k)
  Preserves-then m k km kk = Preserves-bind m (λ _. k) km (λ _. kk)

  pub Preserves-if :
      {A : Type 0} (test : Bool) (m k : Exec W D A)
      → Preserves P m
      → Preserves P k
      → Preserves P (if test then m else k)
  Preserves-if true m k km kk = km
  Preserves-if false m k km kk = kk

  -- An answer that is missing.
  pub Preserves-cases :
      {A B : Type 0} (o : Option A) (m : Exec W D B) (k : A → Exec W D B)
      → Preserves P m
      → ((a : A) → Preserves P (k a))
      → Preserves P (elim o [ none ↦ m | some a ↦ k a ])
  Preserves-cases none m k km kk = km
  Preserves-cases (some a) m k km kk = kk a

pub ruleset reading = (
  Preserves-pure, Preserves-lift, Preserves-query, Preserves-gets, Preserves-or_raise,
  Preserves-raise_when, Preserves-raise_fault, Preserves-bind, Preserves-then, Preserves-if,
)
