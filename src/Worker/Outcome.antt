-- ===== src/Worker/Outcome.antt =====
-- About the end of a run of the worker (backend/app/workers/analysis_worker.py).
use mathlib.Core.Option
use road_vision_ai.Base.{
  ℕ, ◌≡◌, refl, ap, ◌∙◌, inl, inr, true, List, map, Option, none, some, Exn, Result, ok, err, arith,
  Result-cases, Option-cases, ◌==◌, find, find-map, find_sound, if◌then◌else◌,
}
use road_vision_ai.Float.{Float}
use road_vision_ai.Enums.{InspectionStatus}
use road_vision_ai.Schema.{Inspection}
use road_vision_ai.InspectionService.{set_status}
use road_vision_ai.Store.{Db, World, in_session}
use road_vision_ai.Repository.Laws.{touched, id-touched, status-touched}
use road_vision_ai.Worker.{Runtime, analyse, finish, run, recover, settle, attempt, run_analysis}
use road_vision_ai.Worker.Keeps.{analyse-Keeps}

-- A row as the last write of the worker leaves it.
abbrev pub closed : ℕ → InspectionStatus → ℕ → Inspection → Inspection
closed id status now r = if r.id == id then touched (set_status status) now r else r

pub closed-id :
    (id : ℕ) (status : InspectionStatus) (now : ℕ) (r : Inspection)
    → (closed id status now r).id ≡ r.id
unfolding set_status
closed-id id status now r = ground (arith, id-touched (set_status status) now r)

pub closed-status :
    (id : ℕ) (status : InspectionStatus) (now : ℕ) (r : Inspection)
    → (r.id == id) ≡ true
    → (closed id status now r).status ≡ status
unfolding set_status
closed-status id status now r h = rw h (status-touched (set_status status) now r)

abbrev pub by_id : ℕ → List Inspection → Option Inspection
by_id id = find (λ (r : Inspection). r.id == id)

pub closed-find :
    (id : ℕ) (status : InspectionStatus) (now : ℕ) (rows : List Inspection) {r : Inspection}
    → by_id id rows ≡ some r
    → by_id id (map (closed id status now) rows) ≡ some (closed id status now r)
closed-find id status now rows h =
    find-map (closed id status now) (λ r. r.id == id) (λ r. r.id == id)
      (λ r. ap (λ n. n == id) (closed-id id status now r)) rows
    ∙ ap (Option.map (closed id status now)) h

pub closed-none :
    (id : ℕ) (status : InspectionStatus) (now : ℕ) (rows : List Inspection)
    → by_id id rows ≡ none
    → by_id id (map (closed id status now) rows) ≡ none
closed-none id status now rows h =
    find-map (closed id status now) (λ r. r.id == id) (λ r. r.id == id)
      (λ r. ap (λ n. n == id) (closed-id id status now r)) rows
    ∙ ap (Option.map (closed id status now)) h

-- The status that others see.
abbrev pub status_of : ℕ → List Inspection → Option InspectionStatus
status_of id rows = Option.map (λ (r : Inspection). r.status) (by_id id rows)

module _ {W D : Type 0} ⦃f : Float W⦄ (rt : Runtime W) (id : ℕ) (s : World W D) where
  pub run_ok :
      {u : Unit {0}}
      → (analyse rt id s).0 ≡ ok u
      → run rt id s ≡ finish id InspectionStatus.terminee (analyse rt id s).1
  unfolding run
  run_ok h = rw (run, h) refl

  pub run_failed :
      {e : Exn} → (analyse rt id s).0 ≡ err e → run rt id s ≡ (err e, (analyse rt id s).1)
  unfolding run
  run_failed h = rw (run, h) refl

  attempt_ok :
      {u : Unit {0}}
      → (analyse rt id s).0 ≡ ok u
      → (attempt rt id s).1.committed.inspections
        ≡ map
            (closed id InspectionStatus.terminee (analyse rt id s).1.now)
            (analyse rt id s).1.working.inspections
  unfolding attempt settle finish recover
  attempt_ok h = rw (run_ok h) refl

  attempt_failed :
      {e : Exn} {r : Inspection}
      → (analyse rt id s).0 ≡ err e
      → by_id id (analyse rt id s).1.committed.inspections ≡ some r
      → (attempt rt id s).1.committed.inspections
        ≡ map
            (closed id InspectionStatus.erreur (analyse rt id s).1.now)
            (analyse rt id s).1.committed.inspections
  unfolding attempt settle finish recover
  attempt_failed h live = rw (run_failed h, live) refl

  attempt_dropped :
      {e : Exn} {r : Inspection}
      → (analyse rt id s).0 ≡ err e
      → by_id id (analyse rt id s).1.committed.inspections ≡ some r
      → (attempt rt id s).1.committed ≡ record (analyse rt id s).1.committed {
        inspections =
            map
              (closed id InspectionStatus.erreur (analyse rt id s).1.now)
              (analyse rt id s).1.committed.inspections;
      }
  unfolding attempt settle finish recover
  attempt_dropped h live = rw (run_failed h, live) refl

  pub attempt_missing :
      {e : Exn}
      → (analyse rt id s).0 ≡ err e
      → by_id id (analyse rt id s).1.committed.inspections ≡ none
      → (attempt rt id s).1.committed ≡ (analyse rt id s).1.committed
  unfolding attempt settle finish recover
  attempt_missing h gone = rw (run_failed h, gone) refl

settle_answer :
    {W D : Type 0} (id : ℕ) (p : Result (Unit {0}) × World W D) → (settle id p).0 ≡ ok tt
unfolding settle recover finish
settle_answer id (ok a, s) = refl
settle_answer id (err e, s) = ground arith

module _ {W D : Type 0} ⦃f : Float W⦄ (rt : Runtime W) (id : ℕ) (s : World W D) where
  -- The world at the start of the worker's session.
  abbrev pub start : World W D
  start = record s { working = s.committed }

  pub analysis_done :
      {u : Unit {0}}
      → (analyse rt id start).0 ≡ ok u
      → (run_analysis rt id s).1.committed.inspections
        ≡ map
            (closed id InspectionStatus.terminee (analyse rt id start).1.now)
            s.committed.inspections
  unfolding run_analysis in_session
  analysis_done h = attempt_ok rt id start h ∙ ap (map _) ((analyse-Keeps rt id).rows start)

  pub analysis_failed :
      {e : Exn} {r : Inspection}
      → (analyse rt id start).0 ≡ err e
      → by_id id s.committed.inspections ≡ some r
      → (run_analysis rt id s).1.committed.inspections
        ≡ map
            (closed id InspectionStatus.erreur (analyse rt id start).1.now)
            s.committed.inspections
  unfolding run_analysis in_session
  analysis_failed h live =
      let same = ap (λ (db : Db W D). db.inspections) ((analyse-Keeps rt id).seen start) in
      attempt_failed rt id start h (ap (by_id id) same ∙ live) ∙ ap (map _) same

  -- If the analysis raises (no image, no active model, an object that is missing, a prediction or
  -- an engine that raises), the inspection gets status ERREUR and every other table is for others
  -- as it was: nothing of the analysis is kept.
  pub run_analysis_failed :
      {e : Exn} {r : Inspection}
      → (analyse rt id start).0 ≡ err e
      → by_id id s.committed.inspections ≡ some r
      → (now : ℕ) × ((run_analysis rt id s).1.committed ≡ record s.committed {
        inspections = map (closed id InspectionStatus.erreur now) s.committed.inspections;
      })
  unfolding run_analysis in_session
  run_analysis_failed h live =
      let same = (analyse-Keeps rt id).seen start in
      let now = (analyse rt id start).1.now in
      (
        now,
        attempt_dropped rt id start h (ap (λ (db : Db W D). by_id id db.inspections) same ∙ live)
            ∙ ap
                (λ (db : Db W D). record db {
                  inspections = map (closed id InspectionStatus.erreur now) db.inspections;
                })
                same,
      )

  answered : (run_analysis rt id s).0 ≡ ok tt
  unfolding run_analysis in_session attempt
  answered = settle_answer id (run rt id (record s { working = s.committed }))

  -- The committed rows after the run, whether or not the inspection is there.
  analysis_missing :
      {e : Exn}
      → (analyse rt id start).0 ≡ err e
      → by_id id s.committed.inspections ≡ none
      → (run_analysis rt id s).1.committed ≡ s.committed
  unfolding run_analysis in_session
  analysis_missing h gone =
      let same = (analyse-Keeps rt id).seen start in
      attempt_missing rt id start h (ap (λ (db : Db W D). by_id id db.inspections) same ∙ gone)
      ∙ same

  -- A run of the worker never raises. After it others see the inspection with status TERMINEE if
  -- the analysis returned and with status ERREUR if it raised (no image, no active model, an object
  -- that is missing, a prediction or an engine that raises); an inspection that is not there is
  -- passed over.
  pub run_analysis_ends :
      ((run_analysis rt id s).0 ≡ ok tt)
      × (status_of id (run_analysis rt id s).1.committed.inspections
          ≡ elim (by_id id s.committed.inspections) [
            | none ↦ none
            | some r ↦ elim (analyse rt id start).0 [
              | ok u ↦ some InspectionStatus.terminee
              | err e ↦ some InspectionStatus.erreur
            ]
          ])
  run_analysis_ends =
      let rows = s.committed.inspections in
      let now = (analyse rt id start).1.now in
      (
        answered,
        elim (Option-cases (by_id id rows)) [
          | inr (r, live) ↦
              let mine = find_sound (λ (x : Inspection). x.id == id) rows live in
              elim (Result-cases (analyse rt id start).0) [
                | inl (e, h) ↦
                    rw
                      (
                        live,
                        h,
                        analysis_failed h live,
                        closed-find id InspectionStatus.erreur now rows live,
                      )
                      (ap some (closed-status id InspectionStatus.erreur now r mine))
                | inr (u, h) ↦
                    rw
                      (
                        live,
                        h,
                        analysis_done h,
                        closed-find id InspectionStatus.terminee now rows live,
                      )
                      (ap some (closed-status id InspectionStatus.terminee now r mine))
              ]
          | inl gone ↦ elim (Result-cases (analyse rt id start).0) [
            | inl (e, h) ↦ rw (analysis_missing h gone, gone) refl
            | inr (u, h) ↦
                rw (gone, analysis_done h, closed-none id InspectionStatus.terminee now rows gone)
                  refl
          ]
        ],
      )
