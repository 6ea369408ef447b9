-- ===== src/Store/Rules.antt =====
-- Atomicity of requests, and the inversion of a sequence that returns.
use road_vision_ai.Base.{
  ◌≡◌, refl, Bool, true, false, inl, inr, Option, none, some, Exn, err, ok, Result-cases,
}
use road_vision_ai.Store.State.{World}
use road_vision_ai.Store.Actions.{Exec, in_session, pure, or_raise, raise_when, ◌>>=◌, ◌>>◌}

-- If m raises, nothing has been committed.
pub record Atomic {W D A : Type 0} (m : Exec W D A) : Type 0 where
  pub at : (s : World W D) (e : Exn) → (m s).0 ≡ err e → (m s).1.committed ≡ s.committed

module _ {W D A : Type 0} where
  pub in_session-Atomic :
      (m : Exec W D A) (s : World W D) (e : Exn)
      → Atomic m
      → (in_session m s).0 ≡ err e
      → ((in_session m s).1.committed ≡ s.committed) × ((in_session m s).1.working ≡ s.committed)
  unfolding in_session
  in_session-Atomic m s e k h =
      let same = k.at (record s { working = s.committed }) e h in (same, same)

-- A sequence that returns has returned from its first part.
pub bind-eq-ok :
    {W D A B : Type 0} (m : Exec W D A) (f : A → Exec W D B) (s : World W D) {b : B}
    → ((m >>= f) s).0 ≡ ok b
    → (a : A) × ((m s).0 ≡ ok a) × ((f a (m s).1).0 ≡ ok b)
bind-eq-ok m f s h = elim (Result-cases (m s).0) [
  | inl (e, k) ↦ cc (rw k at h)
  | inr (a, k) ↦ (a, k, rw k at h)
]

pub or_raise-eq-ok :
    {W D A : Type 0} (o : Option A) (e : Exn) (s : World W D) {a : A}
    → (or_raise o e s).0 ≡ ok a
    → o ≡ some a
or_raise-eq-ok none e s h = cc
or_raise-eq-ok (some a) e s h = cc

pub raise_when-eq-ok :
    {W D A : Type 0} (test : Bool) (e : Exn) (k : Exec W D A) (s : World W D) {a : A}
    → ((raise_when test e >> k) s).0 ≡ ok a
    → (test ≡ false) × ((k s).0 ≡ ok a)
raise_when-eq-ok true e k s h = cc
raise_when-eq-ok false e k s h = (refl, h)

-- An answer that is left out leaves the world.
pub forgotten_world :
    {W D A : Type 0} (m : Exec W D A) (s : World W D) → ((do m; pure tt) s).1 ≡ (m s).1
forgotten_world m s = elim (Result-cases (m s).0) [
  | inl (e, k) ↦ rw k refl
  | inr (a, k) ↦ rw k refl
]
