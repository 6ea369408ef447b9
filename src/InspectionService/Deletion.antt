-- ===== src/InspectionService/Deletion.antt =====
-- About soft deletion (rule #5).
use road_vision_ai.Base.{
  ℕ, ◌≡◌, refl, inl, inr, true, List, [], ◌∷◌, map, Option, none, some, http, err, ok, arith, ◌==◌,
  find_sound, select, is_none, Bool-cases, Option-cases, if◌then◌else◌,
}
use road_vision_ai.Schema.{Inspection, User}
use road_vision_ai.Store.{World, in_session}
use road_vision_ai.Repository.Laws.{touched, deleted-touched, live_row}
use road_vision_ai.InspectionService.{
  InspectionUpdate, UploadFile, delete, detail, update, upload_image, request_analysis,
}
use road_vision_ai.Text.{Text}
use road_vision_ai.Storage.{Settings}

abbrev pub marked : ℕ → Inspection → Inspection
marked now r = record r { deleted_at = some now }

abbrev pub hidden : ℕ → ℕ → Inspection → Inspection
hidden id now r = if r.id == id then touched (marked now) now r else r

hidden-live_row :
    (id now : ℕ) (rows : List Inspection) → live_row id (map (hidden id now) rows) ≡ none
hidden-live_row id now [] = refl
hidden-live_row id now (r ∷ rows) = elim (Bool-cases (r.id == id)) [
  | inl e ↦ rw (e, deleted-touched (marked now) now r) (hidden-live_row id now rows)
  | inr e ↦ rw e (ground (arith, e, hidden-live_row id now rows))
]

module _ {W D : Type 0} (id : ℕ) (actor : User) (s : World W D) where
  pub delete_missing :
      live_row id s.working.inspections ≡ none → (delete id actor s).0 ≡ err (http 404)
  unfolding delete
  delete_missing h = rw h refl

  pub delete_found :
      {r : Inspection}
      → live_row id s.working.inspections ≡ some r
      → let (answer, s') = delete id actor s in
        (answer ≡ ok tt)
        × (s'.committed.inspections ≡ map (hidden r.id s.now) s.working.inspections)
  unfolding delete
  delete_found h = rw h (refl, refl)

live_row-id :
    (id : ℕ) (rows : List Inspection) {r : Inspection}
    → live_row id rows ≡ some r
    → (r.id == id) ≡ true
live_row-id id rows h =
    find_sound (λ (r : Inspection). r.id == id)
      (select (λ (r : Inspection). is_none r.deleted_at) rows) h

module _ {W D : Type 0} (id : ℕ) (actor : User) (s : World W D) where
  -- After a deletion that succeeded, the details, a PATCH, an upload of an image, an analysis and a
  -- second deletion of the inspection are all answered 404.
  pub delete_hides :
      (body : InspectionUpdate) (settings : Settings W) (image_size : Text → Option (ℕ × ℕ))
      (upload : UploadFile) (lat lng : Option W)
      → (in_session (delete id actor) s).0 ≡ ok tt
      → let s' = (in_session (delete id actor) s).1 in
        ((in_session (detail id) s').0 ≡ err (http 404))
        × ((in_session (update id body actor) s').0 ≡ err (http 404))
        × ((in_session (upload_image settings image_size id upload lat lng actor) s').0
            ≡ err (http 404))
        × ((in_session (request_analysis id actor) s').0 ≡ err (http 404))
        × ((in_session (delete id actor) s').0 ≡ err (http 404))
  unfolding in_session detail update upload_image request_analysis
  delete_hides body settings image_size upload lat lng done =
      elim (Option-cases (live_row id s.committed.inspections)) [
        | inl h ↦ cc (delete_missing id actor (record s { working = s.committed }) h)
        | inr (r, h) ↦
            let s0 : World W D = record s { working = s.committed } in
            let s1 : World W D = (delete id actor s0).1 in
            let rows = (delete_found id actor s0 h).1 in
            let same : r.id ≡ id = ground (arith, live_row-id id s.committed.inspections h) in
            let gone : live_row id s1.committed.inspections ≡ none =
              rw (rows, same) (hidden-live_row id s.now s.committed.inspections) in
            (
              rw gone refl,
              rw gone refl,
              rw gone refl,
              rw gone refl,
              delete_missing id actor (record s1 { working = s1.committed }) gone,
            )
      ]
