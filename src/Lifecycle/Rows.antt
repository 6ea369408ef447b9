-- ===== src/Lifecycle/Rows.antt =====
-- What an UPDATE of the rows does to their statuses.
use mathlib.Core.Option
use road_vision_ai.Base.{
  ℕ, ◌≡◌, refl, sym, ap, ◌∙◌, inl, inr, false, List, [], ◌∷◌, ◌++◌, map, some, arith, ◌==◌,
  find-map, find_sound, find-All, select-All, is_none, Bool-cases, Option-cases,
}
use road_vision_ai.Enums.{InspectionStatus}
use road_vision_ai.Schema.{Inspection}
use road_vision_ai.Repository.Laws.{live_row}
use road_vision_ai.Worker.Outcome.{by_id}
use road_vision_ai.Lifecycle.{Agent, Step, Moves, status_at, IsKeyed}

-- An UPDATE that writes no key.
pub by_id-map :
    (g : Inspection → Inspection) (k : ℕ) (rows : List Inspection)
    → ((r : Inspection) → (g r).id ≡ r.id)
    → by_id k (map g rows) ≡ Option.map g (by_id k rows)
by_id-map g k rows same =
    find-map g (λ r. r.id == k) (λ r. r.id == k) (λ r. ap (λ n. n == k) (same r)) rows

-- An UPDATE that takes every row through a move takes every inspection through one.
pub map-Moves :
    (agent : Agent) (g : Inspection → Inspection) (k : ℕ) (rows : List Inspection)
    → ((r : Inspection) → (g r).id ≡ r.id)
    → ((r : Inspection) → by_id k rows ≡ some r → Moves agent (some r.status) (some (g r).status))
    → Moves agent (status_at k rows) (status_at k (map g rows))
map-Moves agent g k rows same step = elim (Option-cases (by_id k rows)) [
  | inl e ↦ inl (rw (by_id-map g k rows same, e) refl)
  | inr (r, e) ↦ rw (by_id-map g k rows same, e) (step r e)
]

-- A row that is added.
pub append-Moves :
    (new : Inspection) (k : ℕ) (rows : List Inspection)
    → new.status ≡ InspectionStatus.en_attente
    → Moves Agent.requests (status_at k rows) (status_at k (rows ++ new ∷ []))
append-Moves new k [] h = elim (Bool-cases (new.id == k)) [
  | inl e ↦ rw (e, h) (inr Step.created)
  | inr e ↦ rw e (inl refl)
]
append-Moves new k (r ∷ rows) h = elim (Bool-cases (r.id == k)) [
  | inl e ↦ rw e (inl refl)
  | inr e ↦ rw e (append-Moves new k rows h)
]

-- With a primary key, the live row of a key is the row of the key.
pub live_row-by_id :
    (k : ℕ) (rows : List Inspection) {r : Inspection}
    → IsKeyed rows
    → live_row k rows ≡ some r
    → by_id k rows ≡ some r
live_row-by_id k [] d h = cc
live_row-by_id k (y ∷ ys) {r} (apart, d) h = elim (Bool-cases (y.id == k)) [
  | inr e ↦
      let skip : live_row k (y ∷ ys) ≡ live_row k ys = ground (arith, e) in
      rw e (live_row-by_id k ys {r = r} d (sym skip ∙ h))
  | inl e ↦ elim (Bool-cases (is_none y.deleted_at)) [
    | inl live ↦ rw e (cc (rw (live, e) at h))
    | inr gone ↦
        let found : live_row k ys ≡ some r = rw gone at h in
        let mine = find_sound (λ (x : Inspection). x.id == k) _ found in
        let other : (r.id == y.id) ≡ false =
          find-All (λ (x : Inspection). (x.id == y.id) ≡ false) (λ x. x.id == k) _
            (select-All (λ (x : Inspection). (x.id == y.id) ≡ false) _ ys apart) found in
        ground (arith, e, mine, other)
  ]
]
