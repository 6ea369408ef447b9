-- ===== src/Store/Ensures.antt =====
-- Postconditions of actions: what holds of the session's tables if an action returns. One rule for
-- each way to build an action.
use road_vision_ai.Base.{ℕ, ◌≡◌, refl, Bool, true, false, Option, none, some, Exn, Result, err, ok}
use road_vision_ai.Store.State.{Db, World}
use road_vision_ai.Store.Actions.{
  Exec, lift, query, gets, or_raise, raise_when, write, new_key, ◌>>=◌,
}

abbrev pub IfOk : {W D A : Type 0} → (A → Db W D → Type 0) → Result A × World W D → Type 0
IfOk Q (err e, s) = Unit
IfOk Q (ok a, s) = Q a s.working

-- If P holds before m, and m returns, then Q holds of its answer and the tables.
pub record Ensures {W D A : Type 0} (P : Db W D → Type 0) (m : Exec W D A) (Q : A → Db W D → Type 0)
    : Type 0 where
  pub at : (s : World W D) → P s.working → IfOk Q (m s)

module _ {W D A : Type 0} {P : Db W D → Type 0} {Q : A → Db W D → Type 0} where
  pub Ensures-query :
      (g : Db W D → A) → ((db : Db W D) → P db → Q (g db) db) → Ensures P (query g) Q
  Ensures-query g k = record { at = λ s p. k s.working p }

  pub Ensures-gets :
      (g : World W D → A) → ((a : A) (db : Db W D) → P db → Q a db) → Ensures P (gets g) Q
  Ensures-gets g k = record { at = λ s p. k (g s) s.working p }

  pub Ensures-lift :
      (r : Result A) → ((a : A) (db : Db W D) → r ≡ ok a → P db → Q a db) → Ensures P (lift r) Q
  Ensures-lift (err e) k = record { at = λ s p. tt }
  Ensures-lift (ok a) k = record { at = λ s p. k a s.working refl p }

  pub Ensures-or_raise :
      (o : Option A) (e : Exn)
      → ((a : A) (db : Db W D) → o ≡ some a → P db → Q a db)
      → Ensures P (or_raise o e) Q
  Ensures-or_raise none e k = record { at = λ s p. tt }
  Ensures-or_raise (some a) e k = record { at = λ s p. k a s.working refl p }

module _ {W D : Type 0} {P : Db W D → Type 0} where
  pub Ensures-write :
      {Q : Unit {0} → Db W D → Type 0} (g : Db W D → Db W D)
      → ((db : Db W D) → P db → Q tt (g db))
      → Ensures P (write g) Q
  Ensures-write g k = record { at = λ s p. k s.working p }

  pub Ensures-new_key :
      {Q : ℕ → Db W D → Type 0} → ((a : ℕ) (db : Db W D) → P db → Q a db) → Ensures P new_key Q
  Ensures-new_key k = record { at = λ s p. k s.next_id s.working p }

  pub Ensures-raise_when :
      (test : Bool) (e : Exn) → Ensures P (raise_when test e) (λ _ db. P db × (test ≡ false))
  Ensures-raise_when true e = record { at = λ s p. tt }
  Ensures-raise_when false e = record { at = λ s p. (p, refl) }

module _ {W D A B : Type 0} {P : Db W D → Type 0} {Q : B → Db W D → Type 0} where
  pub Ensures-bind :
      (R : A → Db W D → Type 0) (m : Exec W D A) (f : A → Exec W D B)
      → Ensures P m R
      → ((a : A) → Ensures (R a) (f a) Q)
      → Ensures P (m >>= f) Q
  Ensures-bind R m f km kf = record { at = λ s p. after (m s) (km.at s p) }
    where
      after :
          (r : Result A × World W D)
          → IfOk R r
          → IfOk Q ((let k : Exec W D A = λ _. r in k >>= f) r.1)
      after (err e, t) h = tt
      after (ok a, t) h = (kf a).at t h

module _ {W D A : Type 0} {P : Db W D → Type 0} {Q : A → Db W D → Type 0} where
  -- A fact that does not speak of the tables.
  pub Ensures-given :
      {Fact : Type 0} (m : Exec W D A) → (Fact → Ensures P m Q) → Ensures (λ db. P db × Fact) m Q
  Ensures-given m k = record { at = λ s p. (k p.1).at s p.0 }

pub IfOk-map :
    {W D A : Type 0} (Q Q' : A → Db W D → Type 0) (r : Result A × World W D)
    → ((a : A) (db : Db W D) → Q a db → Q' a db)
    → IfOk Q r
    → IfOk Q' r
IfOk-map Q Q' (err e, s) k h = tt
IfOk-map Q Q' (ok a, s) k h = k a s.working h

module _ {W D A : Type 0} {P : Db W D → Type 0} where
  -- A weaker postcondition.
  pub Ensures-after :
      (Q Q' : A → Db W D → Type 0) (m : Exec W D A)
      → Ensures P m Q
      → ((a : A) (db : Db W D) → Q a db → Q' a db)
      → Ensures P m Q'
  Ensures-after Q Q' m h k = record { at = λ s p. IfOk-map Q Q' (m s) k (h.at s p) }
