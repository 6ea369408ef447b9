-- ===== src/Lifecycle/Served.antt =====
-- About the requests as steps of SM1, one by one (backend/app/services/inspection_service.py).
use road_vision_ai.Base.{
  ℕ, ◌≡◌, refl, ap, ◌∙◌, inl, inr, true, false, Option, some, ok, arith, ◌==◌, any, find_sound,
  is_none, ◌&&◌, Bool-cases, Option-cases,
}
use road_vision_ai.Text.{Text}
use road_vision_ai.Enums.{InspectionStatus}
use road_vision_ai.Schema.{Inspection, RoadSection, User}
use road_vision_ai.Store.{World, Exec, pure, ◌>>◌}
use road_vision_ai.Store.Rules.{bind-eq-ok, forgotten_world}
use road_vision_ai.Storage.{Settings}
use road_vision_ai.Repository.Laws.{hit, fits, live_row, id-hit, id-touched, status-touched}
use road_vision_ai.Repository.Inspections.{status_eq}
use road_vision_ai.InspectionService.{
  AnalysisAccepted, InspectionCreate, InspectionUpdate, UploadFile, patch, has_values, set_status,
  can_start, new_inspection, create, update, delete, upload_image, request_analysis,
}
use road_vision_ai.InspectionService.Locking.{update_cases, update_fresh}
use road_vision_ai.InspectionService.Revision.{patch-IsPatch}
use road_vision_ai.InspectionService.Workflow.{
  set_status-IsPatch, started-status, start_ok, start_succeeded, request_analysis_cases,
}
use road_vision_ai.InspectionService.Deletion.{hidden, marked, delete_found, delete_missing}
use road_vision_ai.InspectionService.Atomic.{Request, serve}
use road_vision_ai.Worker.Outcome.{by_id}
use road_vision_ai.Lifecycle.{Agent, Step, Moves, status_at, IsKeyed}
use road_vision_ai.Lifecycle.Rows.{map-Moves, append-Moves, live_row-by_id}

-- PATCH and DELETE leave the status.
patched-status :
    (id v now : ℕ) (body : InspectionUpdate) (r : Inspection)
    → (hit id v (patch body) now r).status ≡ r.status
unfolding patch
patched-status id v now body r = ground (arith, status-touched (patch body) now r)

hidden-id : (id now : ℕ) (r : Inspection) → (hidden id now r).id ≡ r.id
hidden-id id now r = ground (arith, id-touched (marked now) now r)

hidden-status : (id now : ℕ) (r : Inspection) → (hidden id now r).status ≡ r.status
hidden-status id now r = ground (arith, status-touched (marked now) now r)

-- An analysis starts from EN_ATTENTE or ERREUR.
start-Step :
    (status : InspectionStatus)
    → can_start status ≡ true
    → Step Agent.requests (some status) (some InspectionStatus.en_cours)
unfolding can_start status_eq
start-Step InspectionStatus.en_attente h = Step.started
start-Step InspectionStatus.erreur h = Step.restarted
start-Step InspectionStatus.en_cours h = cc
start-Step InspectionStatus.terminee h = cc
start-Step InspectionStatus.annulee h = cc
start-Step InspectionStatus.validee h = cc

module _ {W D : Type 0} (actor : User) (s : World W D) (k : ℕ) where
  -- The world that a request's session begins with.
  abbrev pub begin : World W D
  begin = record s { working = s.committed }

  abbrev pub Served : {A : Type 0} → Exec W D A → Type 0
  Served m =
      Moves Agent.requests (status_at k s.committed.inspections)
        (status_at k (m begin).1.committed.inspections)

  create-Moves : (body : InspectionCreate) → Served (create body actor)
  unfolding create new_inspection
  create-Moves body =
      elim (Bool-cases (
        any (λ (x : RoadSection W). x.id == body.road_section_id && is_none x.deleted_at)
          s.committed.road_sections)) [
            | inl e ↦ rw e (append-Moves _ k s.committed.inspections refl)
            | inr e ↦ rw e (inl refl)
          ]

  update_unset :
      (id : ℕ) (body : InspectionUpdate) {r : Inspection}
      → live_row id s.committed.inspections ≡ some r
      → has_values body ≡ false
      → (update id body actor begin).1.committed ≡ s.committed
  unfolding update
  update_unset id body h v = rw (h, v, h) refl

  update-Moves :
      (id : ℕ) (body : InspectionUpdate) {r : Inspection}
      → (update id body actor begin).0 ≡ ok r
      → Served (update id body actor)
  update-Moves id body done =
      let answer = update_cases id body actor begin in
      elim (Option-cases (live_row id s.committed.inspections)) [
        | inl h ↦ cc (rw h at answer)
        | inr (r, h) ↦ elim (Bool-cases (has_values body)) [
          | inr v ↦ rw (update_unset id body h v) (inl refl)
          | inl v ↦ elim (Bool-cases (any (fits id body.version) s.committed.inspections)) [
            | inr e ↦ cc (rw (h, v, e) at answer)
            | inl e ↦ rw (update_fresh id body actor begin h v e).2 (
                map-Moves Agent.requests (hit id body.version (patch body) s.now) k
                  s.committed.inspections
                  (id-hit id body.version (patch body) s.now (patch-IsPatch body))
                  (λ x here. inl (ap some (patched-status id body.version s.now body x))))
          ]
        ]
      ]

  delete-Moves : (id : ℕ) → (delete id actor begin).0 ≡ ok tt → Served (delete id actor)
  delete-Moves id done = elim (Option-cases (live_row id s.committed.inspections)) [
    | inl h ↦ cc (delete_missing id actor begin h)
    | inr (r, h) ↦ rw (delete_found id actor begin h).1 (
        map-Moves Agent.requests (hidden r.id s.now) k s.committed.inspections
          (hidden-id r.id s.now) (λ x e. inl (ap some (hidden-status r.id s.now x))))
  ]

  analysis-Moves :
      (id : ℕ) {a : AnalysisAccepted}
      → IsKeyed s.committed.inspections
      → (request_analysis id actor begin).0 ≡ ok a
      → Served (request_analysis id actor)
  analysis-Moves id keyed done =
      let answer = request_analysis_cases id actor begin in
      let rows = s.committed.inspections in
      elim (Option-cases (live_row id rows)) [
        | inl h ↦ cc (rw h at answer)
        | inr (r, h) ↦
            let (i, c) = start_succeeded id actor begin h done in
            let (accepted, now_working, now_committed, images) = start_ok id actor begin h i c in
            let mine : (r.id == id) ≡ true = find_sound (λ (x : Inspection). x.id == id) _ h in
            let row : by_id id rows ≡ some r = live_row-by_id id rows keyed h in
            rw (now_committed, now_working)
              (map-Moves Agent.requests
                (hit r.id r.version (set_status InspectionStatus.en_cours) s.now) k rows
                (id-hit r.id r.version (set_status InspectionStatus.en_cours) s.now
                  (set_status-IsPatch InspectionStatus.en_cours))
                (λ x here. elim (Bool-cases (fits r.id r.version x)) [
                  | inr e ↦ rw e (inl refl)
                  | inl e ↦
                      let at_k : (x.id == k) ≡ true =
                        find_sound (λ (y : Inspection). y.id == k) rows here in
                      let k_is : k ≡ id = ground (arith, e, mine, at_k) in
                      let same : x ≡ r = cc (row, here, k_is) in
                      rw (e, started-status s.now x)
                        (inr (
                          start-Step x.status
                            (ap (λ (y : Inspection). can_start y.status) same ∙ c)))
                ]))
      ]

  forgotten-Moves : {A : Type 0} (m : Exec W D A) → Served m → Served (do m; pure tt)
  forgotten-Moves m h = rw (forgotten_world m begin) h

  forgotten_ok :
      {A : Type 0} (m : Exec W D A) {u : Unit {0}}
      → ((do m; pure tt) begin).0 ≡ ok u
      → (a : A) × ((m begin).0 ≡ ok a)
  forgotten_ok m h = let (a, returned, rest) = bind-eq-ok m (λ a. pure tt) begin h in (a, returned)

  upload_rows :
      (settings : Settings W) (image_size : Text → Option (ℕ × ℕ)) (id : ℕ) (upload : UploadFile)
      (lat lng : Option W)
      → (upload_image settings image_size id upload lat lng actor begin).1.committed.inspections
        ≡ s.committed.inspections
  unfolding upload_image
  upload_rows settings image_size id upload lat lng = ground arith

  upload-Moves :
      (settings : Settings W) (image_size : Text → Option (ℕ × ℕ)) (id : ℕ) (upload : UploadFile)
      (lat lng : Option W)
      → Served (upload_image settings image_size id upload lat lng actor)
  upload-Moves settings image_size id upload lat lng =
      rw (upload_rows settings image_size id upload lat lng) (inl refl)

  pub Served-Moves :
      (settings : Settings W) (image_size : Text → Option (ℕ × ℕ)) (q : Request W) {u : Unit {0}}
      → IsKeyed s.committed.inspections
      → (serve settings image_size actor q begin).0 ≡ ok u
      → Served (serve settings image_size actor q)
  unfolding serve
  Served-Moves settings image_size (Request.creation body) keyed h =
      forgotten-Moves (create body actor) (create-Moves body)
  Served-Moves settings image_size (Request.change id body) keyed h =
      let (r, done) = forgotten_ok (update id body actor) h in
      forgotten-Moves (update id body actor) (update-Moves id body done)
  Served-Moves settings image_size (Request.removal id) keyed h =
      let (r, done) = forgotten_ok (delete id actor) h in
      forgotten-Moves (delete id actor) (delete-Moves id done)
  Served-Moves settings image_size (Request.image id upload lat lng) keyed h =
      forgotten-Moves (upload_image settings image_size id upload lat lng actor)
        (upload-Moves settings image_size id upload lat lng)
  Served-Moves settings image_size (Request.analysis id) keyed h =
      let (a, done) = forgotten_ok (request_analysis id actor) h in
      forgotten-Moves (request_analysis id actor) (analysis-Moves id keyed done)
