-- ===== src/Lifecycle/Refinement.antt =====
-- About the requests and the worker as steps of SM1
-- (backend/app/services/inspection_service.py, backend/app/workers/analysis_worker.py).
use road_vision_ai.Base.{
  ℕ, ◌≡◌, ◌⊎◌, refl, inl, inr, true, false, map, Option, some, arith, ◌==◌, find_sound, Bool-cases,
  Option-cases, Result-cases,
}
use road_vision_ai.Text.{Text}
use road_vision_ai.Float.{Float}
use road_vision_ai.Enums.{InspectionStatus}
use road_vision_ai.Schema.{Inspection, User}
use road_vision_ai.Store.{World, in_session}
use road_vision_ai.Storage.{Settings}
use road_vision_ai.InspectionService.Atomic.{Request, serve, serve-Atomic}
use road_vision_ai.Worker.{Runtime, analyse, run_analysis}
use road_vision_ai.Worker.Outcome.{
  by_id, closed, closed-id, closed-find, closed-status, start, analysis_done, analysis_failed,
}
use road_vision_ai.Lifecycle.{Agent, Step, Moves, status_at, IsKeyed}
use road_vision_ai.Lifecycle.Rows.{by_id-map}
use road_vision_ai.Lifecycle.Served.{begin, Served-Moves}

module _ {W D : Type 0} (actor : User) (s : World W D) (k : ℕ) where
  -- If the keys of the inspections are unique, a request, whatever it answers, leaves the committed
  -- status of every inspection, or takes it one step of SM1 that belongs to requests: creation, the
  -- start of an analysis, or its restart after an error.
  pub serve_refines :
      (settings : Settings W) (image_size : Text → Option (ℕ × ℕ)) (q : Request W)
      → IsKeyed s.committed.inspections
      → Moves Agent.requests
          (status_at k s.committed.inspections)
          (status_at k (in_session (serve settings image_size actor q) s).1.committed.inspections)
  unfolding in_session
  serve_refines settings image_size q keyed =
      elim (Result-cases (serve settings image_size actor q (begin actor s k)).0) [
        | inl (e, h) ↦
            rw ((serve-Atomic settings image_size actor q).at (begin actor s k) e h) (inl refl)
        | inr (u, h) ↦ Served-Moves actor s k settings image_size q keyed h
      ]

module _ {W D : Type 0} ⦃f : Float W⦄ (rt : Runtime W) (id : ℕ) (s : World W D) where
  closed-other :
      (status : InspectionStatus) (now k : ℕ)
      → (k == id) ≡ false
      → status_at k (map (closed id status now) s.committed.inspections)
        ≡ status_at k s.committed.inspections
  closed-other status now k apart =
      let rows = s.committed.inspections in
      let found = by_id-map (closed id status now) k rows (closed-id id status now) in
      elim (Option-cases (by_id k rows)) [
        | inl e ↦ rw (found, e) refl
        | inr (r, e) ↦
            let at_k : (r.id == k) ≡ true = find_sound (λ (y : Inspection). y.id == k) rows e in
            let other : (r.id == id) ≡ false = ground (arith, at_k, apart) in
            rw (found, e, other) refl
      ]

  others :
      (status : InspectionStatus) (now k : ℕ)
      → (k ≡ id)
        ⊎ (status_at k (map (closed id status now) s.committed.inspections)
            ≡ status_at k s.committed.inspections)
  others status now k = elim (Bool-cases (k == id)) [
    | inl e ↦ inl (ground (arith, e))
    | inr e ↦ inr (closed-other status now k e)
  ]

  closed-Step :
      (status : InspectionStatus) (now : ℕ) {r : Inspection}
      → Step Agent.worker (some InspectionStatus.en_cours) (some status)
      → by_id id s.committed.inspections ≡ some r
      → r.status ≡ InspectionStatus.en_cours
      → Step Agent.worker
          (status_at id s.committed.inspections)
          (status_at id (map (closed id status now) s.committed.inspections))
  closed-Step status now {r} step live running =
      let rows = s.committed.inspections in
      let mine = find_sound (λ (x : Inspection). x.id == id) rows live in
      rw (closed-find id status now rows live, live, closed-status id status now r mine, running)
        step

  -- On an inspection that is EN_COURS the worker always takes its one step of SM1, to TERMINEE or
  -- to ERREUR, and it leaves the status of every other inspection.
  pub run_analysis_refines :
      (k : ℕ) {r : Inspection}
      → by_id id s.committed.inspections ≡ some r
      → r.status ≡ InspectionStatus.en_cours
      → Step Agent.worker
          (status_at id s.committed.inspections)
          (status_at id (run_analysis rt id s).1.committed.inspections)
        × ((k ≡ id)
            ⊎ (status_at k (run_analysis rt id s).1.committed.inspections
                ≡ status_at k s.committed.inspections))
  run_analysis_refines k live running =
      let now = (analyse rt id (start rt id s)).1.now in
      elim (Result-cases (analyse rt id (start rt id s)).0) [
        | inl (e, h) ↦ rw (analysis_failed rt id s h live) (
          closed-Step InspectionStatus.erreur now Step.failed live running,
          others InspectionStatus.erreur now k,
        )
        | inr (u, h) ↦ rw (analysis_done rt id s h) (
          closed-Step InspectionStatus.terminee now Step.completed live running,
          others InspectionStatus.terminee now k,
        )
      ]
