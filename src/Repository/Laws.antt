-- ===== src/Repository/Laws.antt =====
-- Optimistic locking: what `update_with_version` does to the rows of `inspections`.
use mathlib.Core.Option
use road_vision_ai.Base.{
  ℕ, suc, ◌≡◌, refl, ap, inl, inr, Bool, true, false, ◌&&◌, List, [], ◌∷◌, map, Option, arith, ◌==◌,
  any, All, find, select, find-map, select-map, is_none, Bool-cases, if◌then◌else◌,
}
use road_vision_ai.Schema.{Inspection}
use road_vision_ai.Repository.Inspections.{same_row, set_updated_at, increment_version}

-- An UPDATE that writes none of the columns that identify a row.
pub record IsPatch (f : Inspection → Inspection) : Type 0 where
  pub id : (r : Inspection) → (f r).id ≡ r.id
  pub deleted : (r : Inspection) → (f r).deleted_at ≡ r.deleted_at

-- It changes a column besides `updated_at`.
abbrev pub Changes : (Inspection → Inspection) → Inspection → Type 0
Changes f r = (t : ℕ) → same_row (record (f r) { updated_at = t }) r ≡ false

-- A row after the UPDATE and its triggers.
abbrev pub touched : (Inspection → Inspection) → ℕ → Inspection → Inspection
touched f now r = increment_version r (set_updated_at now r (f r))

pub version-touched :
    (f : Inspection → Inspection) (now : ℕ) (r : Inspection)
    → Changes f r
    → (touched f now r).version ≡ suc r.version
unfolding increment_version set_updated_at
version-touched f now r c = rw (c (f r).updated_at) (rw (c now) (omega arith))

pub id-touched :
    (f : Inspection → Inspection) (now : ℕ) (r : Inspection) → (touched f now r).id ≡ (f r).id
unfolding increment_version set_updated_at
id-touched f now r = ground arith

pub deleted-touched :
    (f : Inspection → Inspection) (now : ℕ) (r : Inspection)
    → (touched f now r).deleted_at ≡ (f r).deleted_at
unfolding increment_version set_updated_at
deleted-touched f now r = ground arith

pub status-touched :
    (f : Inspection → Inspection) (now : ℕ) (r : Inspection)
    → (touched f now r).status ≡ (f r).status
unfolding increment_version set_updated_at
status-touched f now r = ground arith

-- `WHERE id = :id AND version = :expected`
abbrev pub fits : ℕ → ℕ → Inspection → Bool
fits id expected r = r.id == id && r.version == expected

-- What `update_with_version` makes of a row.
abbrev pub hit : ℕ → ℕ → (Inspection → Inspection) → ℕ → Inspection → Inspection
hit id expected f now r = if fits id expected r then touched f now r else r

-- The row that a query by key finds: soft-deleted rows are passed over.
abbrev pub live_row : ℕ → List Inspection → Option Inspection
live_row k rows =
    find (λ (r : Inspection). r.id == k) (select (λ (r : Inspection). is_none r.deleted_at) rows)

module _ (id expected : ℕ) (f : Inspection → Inspection) (now : ℕ) where
  -- Every row that is updated leaves the version that the UPDATE asked for.
  pub any-fits-hit :
      (rows : List Inspection)
      → All (λ r. fits id expected r ≡ true → Changes f r) rows
      → any (fits id expected) (map (hit id expected f now) rows) ≡ false
  any-fits-hit [] c = refl
  any-fits-hit (r ∷ rows) c = elim (Bool-cases (fits id expected r)) [
    | inl e ↦ rw e (ground (arith, version-touched f now r (c.0 e), any-fits-hit rows c.1))
    | inr e ↦ rw e (ground (arith, any-fits-hit rows c.1))
  ]

  module _ (keeps : IsPatch f) where
    pub id-hit : (r : Inspection) → (hit id expected f now r).id ≡ r.id
    id-hit r = ground (arith, id-touched f now r, keeps.id r)

    deleted-hit : (r : Inspection) → (hit id expected f now r).deleted_at ≡ r.deleted_at
    deleted-hit r = ground (arith, deleted-touched f now r, keeps.deleted r)

    -- A query by key finds the row that it found before, as the UPDATE left it.
    pub live_row-hit :
        (rows : List Inspection) (k : ℕ)
        → live_row k (map (hit id expected f now) rows)
          ≡ Option.map (hit id expected f now) (live_row k rows)
    live_row-hit rows k =
        rw
          (select-map (hit id expected f now) (λ r. is_none r.deleted_at)
            (λ r. is_none r.deleted_at) (λ r. ap is_none (deleted-hit r)) rows)
          (find-map (hit id expected f now) (λ r. r.id == k) (λ r. r.id == k)
            (λ r. ap (λ n. n == k) (id-hit r)) (select (λ r. is_none r.deleted_at) rows))
