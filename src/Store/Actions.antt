-- ===== src/Store/Actions.antt =====
-- Actions on the world that may raise. What was written before an exception stays in the session
-- until `in_session` drops it.
use road_vision_ai.Base.{ℕ, ◌+◌, Bool, Option, none, some, Exn, Result, ok, err, if◌then◌else◌}
use road_vision_ai.Store.State.{Db, World}

abbrev pub Exec : Type 0 → Type 0 → Type 0 → Type 0
Exec W D A = World W D → Result A × World W D

module _ {W D A : Type 0} where
  abbrev pub pure : A → Exec W D A
  pure a s = (ok a, s)

  abbrev pub raise : Exn → Exec W D A
  raise e s = (err e, s)

  abbrev pub lift : Result A → Exec W D A
  lift r s = (r, s)

  -- A query of the session.
  abbrev pub query : (Db W D → A) → Exec W D A
  query f s = (ok (f s.working), s)

  abbrev pub gets : (World W D → A) → Exec W D A
  gets f s = (ok (f s), s)

  -- `if x is None: raise e`
  abbrev pub or_raise : Option A → Exn → Exec W D A
  or_raise none e s = (err e, s)
  or_raise (some a) e s = (ok a, s)

module _ {W D A B : Type 0} where
  abbrev continue : Result A → (A → Exec W D B) → Exec W D B
  continue (ok a) f s = f a s
  continue (err e) f s = (err e, s)

  infixl 5 ◌>>=◌ ◌>>◌
  abbrev pub ◌>>=◌ : Exec W D A → (A → Exec W D B) → Exec W D B
  ◌>>=◌ m f s = let (r, s') = m s in continue r f s'

  abbrev pub ◌>>◌ : Exec W D A → Exec W D B → Exec W D B
  m >> k = m >>= λ _. k

module _ {W D : Type 0} where
  -- What a call that is no code of the repository raises, if anything.
  abbrev pub raise_fault : Option Exn → Exec W D (Unit {0})
  raise_fault none s = (ok tt, s)
  raise_fault (some e) s = (err e, s)

  abbrev pub raise_when : Bool → Exn → Exec W D (Unit {0})
  raise_when test e s = (if test then err e else ok tt, s)

  -- A flushed write of the session.
  abbrev pub write : (Db W D → Db W D) → Exec W D (Unit {0})
  write f s = (ok tt, record s { working = f s.working })

  -- The key of a new row.
  abbrev pub new_key : Exec W D ℕ
  new_key s = (ok s.next_id, record s { next_id = s.next_id + 1 })

  abbrev pub commit : Exec W D (Unit {0})
  commit s = (ok tt, record s { committed = s.working })

  abbrev pub rollback : Exec W D (Unit {0})
  rollback s = (ok tt, record s { working = s.committed })

  -- `async with factory() as session`: the session begins at the committed state, and what it has
  -- not committed is dropped at the end, however the request ends.
  unfoldable pub in_session : {A : Type 0} → Exec W D A → Exec W D A
  in_session m s =
      let (r, s') = m (record s { working = s.committed }) in
      (r, record s' { working = s'.committed })
