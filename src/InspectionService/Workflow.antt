-- ===== src/InspectionService/Workflow.antt =====
-- About the entry of the analysis workflow (SM1).
use road_vision_ai.Base.{
  ℕ, suc, ◌≡◌, refl, ap, ◌∙◌, inl, inr, true, false, List, map, none, some, http, err, ok, arith,
  ◌==◌, ==_refl, any, select, length, any-find, any-select, Bool-cases, Option-cases, if◌then◌else◌,
  is_none,
}
use road_vision_ai.Enums.{InspectionStatus}
use road_vision_ai.Schema.{Inspection, User}
use road_vision_ai.Store.{Db, World, in_session}
use road_vision_ai.Repository.Inspections.{same_row, images_of}
use road_vision_ai.Repository.Laws.{
  IsPatch, Changes, touched, id-touched, status-touched, version-touched, hit, fits, live_row,
  live_row-hit,
}
use road_vision_ai.InspectionService.{AnalysisAccepted, set_status, can_start, request_analysis}

pub set_status-IsPatch : (t : InspectionStatus) → IsPatch (set_status t)
unfolding set_status
set_status-IsPatch t = record { id = λ r. refl; deleted = λ r. refl }

-- Starting an analysis changes the row: EN_COURS is no status that it can start from.
start-Changes :
    (r : Inspection) → can_start r.status ≡ true → Changes (set_status InspectionStatus.en_cours) r
unfolding same_row set_status can_start
start-Changes r h = λ t. ground (arith, h)

-- The version that a found row has is in the table.
fits_found :
    (id : ℕ) (rows : List Inspection) {r : Inspection}
    → live_row id rows ≡ some r
    → any (fits r.id r.version) rows ≡ true
fits_found id rows {r} h =
    any-select (λ (x : Inspection). is_none x.deleted_at) (fits r.id r.version) rows
      (any-find (λ (x : Inspection). x.id == id) (fits r.id r.version)
        (select (λ (x : Inspection). is_none x.deleted_at) rows) h (ground arith))

abbrev pub accepted : Inspection → AnalysisAccepted
accepted r = record { inspection_id = r.id; status = InspectionStatus.en_cours }

-- The statuses from which an analysis may start.
by_status :
    (status : InspectionStatus) (a : AnalysisAccepted)
    → (if can_start status then ok a else err (http 409)) ≡ elim status [
      | InspectionStatus.en_attente ↦ ok a
      | InspectionStatus.erreur ↦ ok a
      | InspectionStatus.en_cours ↦ err (http 409)
      | InspectionStatus.terminee ↦ err (http 409)
      | InspectionStatus.annulee ↦ err (http 409)
      | InspectionStatus.validee ↦ err (http 409)
    ]
unfolding can_start
by_status InspectionStatus.en_attente a = refl
by_status InspectionStatus.erreur a = refl
by_status InspectionStatus.en_cours a = refl
by_status InspectionStatus.terminee a = refl
by_status InspectionStatus.annulee a = refl
by_status InspectionStatus.validee a = refl

module _ {W D : Type 0} (id : ℕ) (actor : User) (s : World W D) where
  start_missing :
      live_row id s.working.inspections ≡ none → request_analysis id actor s ≡ (err (http 404), s)
  unfolding request_analysis
  start_missing h = rw h refl

  pub start_ok :
      {r : Inspection}
      → live_row id s.working.inspections ≡ some r
      → (length (images_of r.id s.working) == 0) ≡ false
      → can_start r.status ≡ true
      → let (answer, s') = request_analysis id actor s in
        (answer ≡ ok (accepted r))
        × (s'.working.inspections
            ≡ map
                (hit r.id r.version (set_status InspectionStatus.en_cours) s.now)
                s.working.inspections)
        × (s'.committed ≡ s'.working)
        × (s'.working.road_images ≡ s.working.road_images)
  unfolding request_analysis
  start_ok h i c = rw (h, i, c, fits_found id s.working.inspections h) (refl, refl, refl, refl)

  start_empty :
      {r : Inspection}
      → live_row id s.working.inspections ≡ some r
      → (length (images_of r.id s.working) == 0) ≡ true
      → request_analysis id actor s ≡ (err (http 400), s)
  unfolding request_analysis
  start_empty h i = rw (h, i) refl

  start_busy :
      {r : Inspection}
      → live_row id s.working.inspections ≡ some r
      → (length (images_of r.id s.working) == 0) ≡ false
      → can_start r.status ≡ false
      → request_analysis id actor s ≡ (err (http 409), s)
  unfolding request_analysis
  start_busy h i c = rw (h, i, c) refl

  pub request_analysis_cases :
      (request_analysis id actor s).0 ≡ elim (live_row id s.working.inspections) [
        | none ↦ err (http 404)
        | some r ↦
            if length (images_of r.id s.working) == 0
            then err (http 400)
            else if can_start r.status
            then ok (accepted r)
            else err (http 409)
      ]
  request_analysis_cases = elim (Option-cases (live_row id s.working.inspections)) [
    | inl h ↦ rw h (ap (λ p. p.0) (start_missing h))
    | inr (r, h) ↦ elim (Bool-cases (length (images_of r.id s.working) == 0)) [
      | inl i ↦ rw (h, i) (ap (λ p. p.0) (start_empty h i))
      | inr i ↦ elim (Bool-cases (can_start r.status)) [
        | inl c ↦ rw (h, i, c) (start_ok h i c).0
        | inr c ↦ rw (h, i, c) (ap (λ p. p.0) (start_busy h i c))
      ]
    ]
  ]

  -- The answer of a request for analysis: 404 if the inspection is missing or deleted, 400 if it
  -- has no image, acceptance if its status is EN_ATTENTE or ERREUR, and 409 if it is EN_COURS,
  -- TERMINEE, ANNULEE or VALIDEE. The version check cannot fail in between.
  pub request_analysis_answer :
      (request_analysis id actor s).0 ≡ elim (live_row id s.working.inspections) [
        | none ↦ err (http 404)
        | some r ↦
            if length (images_of r.id s.working) == 0 then err (http 400) else elim r.status [
              | InspectionStatus.en_attente ↦ ok (accepted r)
              | InspectionStatus.erreur ↦ ok (accepted r)
              | InspectionStatus.en_cours ↦ err (http 409)
              | InspectionStatus.terminee ↦ err (http 409)
              | InspectionStatus.annulee ↦ err (http 409)
              | InspectionStatus.validee ↦ err (http 409)
            ]
      ]
  request_analysis_answer = elim (Option-cases (live_row id s.working.inspections)) [
    | inl h ↦ rw h (rw h at request_analysis_cases)
    | inr (r, h) ↦ elim (Bool-cases (length (images_of r.id s.working) == 0)) [
      | inl i ↦ rw (h, i) (rw (h, i) at request_analysis_cases)
      | inr i ↦ rw (h, i) (rw (h, i) at request_analysis_cases ∙ by_status r.status (accepted r))
    ]
  ]

  pub start_succeeded :
      {r : Inspection} {a : AnalysisAccepted}
      → live_row id s.working.inspections ≡ some r
      → (request_analysis id actor s).0 ≡ ok a
      → ((length (images_of r.id s.working) == 0) ≡ false) × (can_start r.status ≡ true)
  start_succeeded {r} h done = elim (Bool-cases (length (images_of r.id s.working) == 0)) [
    | inl i ↦ cc (start_empty h i)
    | inr i ↦ elim (Bool-cases (can_start r.status)) [
      | inl c ↦ (i, c)
      | inr c ↦ cc (start_busy h i c)
    ]
  ]

-- The row after the start.
abbrev pub started : ℕ → Inspection → Inspection
started now r = touched (set_status InspectionStatus.en_cours) now r

hit_self :
    (now : ℕ) (r : Inspection)
    → hit r.id r.version (set_status InspectionStatus.en_cours) now r ≡ started now r
hit_self now r = rw (==_refl r.id, ==_refl r.version) refl

pub started-status : (now : ℕ) (r : Inspection) → (started now r).status ≡ InspectionStatus.en_cours
unfolding set_status
started-status now r = status-touched (set_status InspectionStatus.en_cours) now r

images_of-same :
    {W D : Type 0} (id id' : ℕ) (db db' : Db W D)
    → id' ≡ id
    → db'.road_images ≡ db.road_images
    → images_of id' db' ≡ images_of id db
unfolding images_of
images_of-same id id' db db' e p = rw (e, p) refl

module _ {W D : Type 0} (id : ℕ) (actor actor' : User) (s : World W D) where
  -- An analysis starts once: after a request for analysis that was accepted, others see the
  -- inspection with status EN_COURS and the next version, and a second request is refused with 409
  -- and commits nothing.
  pub request_analysis_once :
      {r : Inspection} {a : AnalysisAccepted}
      → live_row id s.committed.inspections ≡ some r
      → (in_session (request_analysis id actor) s).0 ≡ ok a
      → let s' = (in_session (request_analysis id actor) s).1 in
        let (answer, s'') = in_session (request_analysis id actor') s' in
        (r' : Inspection) × (live_row id s'.committed.inspections ≡ some r')
        × (r'.status ≡ InspectionStatus.en_cours)
        × (r'.version ≡ suc r.version)
        × (answer ≡ err (http 409))
        × (s''.committed ≡ s'.committed)
  unfolding in_session can_start
  request_analysis_once {r} {a} live done =
      let s0 : World W D = record s { working = s.committed } in
      let (images, can) = start_succeeded id actor s0 {r = r} {a = a} live done in
      let (_, rows, seen, pictures) = start_ok id actor s0 {r = r} live images can in
      let s1 : World W D = (request_analysis id actor s0).1 in
      let s2 : World W D = record s1 { working = s1.committed } in
      let found : live_row id s1.committed.inspections ≡ some (started s.now r) =
        rw
          (
            seen,
            rows,
            live_row-hit r.id r.version (set_status InspectionStatus.en_cours) s.now
                (set_status-IsPatch InspectionStatus.en_cours) s.committed.inspections id,
            live,
          )
          (ap some (hit_self s.now r)) in
      let busy =
        start_busy id actor' s2 {r = started s.now r} found
          (rw
            (images_of-same r.id (started s.now r).id s.committed s1.committed
              (id-touched (set_status InspectionStatus.en_cours) s.now r
                ∙ (set_status-IsPatch InspectionStatus.en_cours).id r)
              (rw seen pictures))
            images)
          (rw (started-status s.now r) refl) in
      (
        started s.now r,
        found,
        started-status s.now r,
        version-touched (set_status InspectionStatus.en_cours) s.now r (start-Changes r can),
        ap (λ p. p.0) busy,
        ap (λ p. p.1.committed) busy,
      )
