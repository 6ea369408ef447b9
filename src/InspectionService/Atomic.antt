-- ===== src/InspectionService/Atomic.antt =====
-- About requests that fail
-- (backend/app/api/v1/endpoints/inspections.py, backend/app/services/inspection_service.py).
use road_vision_ai.Base.{ℕ, ◌≡◌, Option, Exn, err, arith}
use road_vision_ai.Text.{Text}
use road_vision_ai.Schema.{User}
use road_vision_ai.Store.{World, Exec, pure, in_session, ◌>>◌}
use road_vision_ai.Store.Rules.{Atomic, in_session-Atomic}
use road_vision_ai.Storage.{Settings}
use road_vision_ai.InspectionService.Locking.{update_raised}
use road_vision_ai.InspectionService.{
  InspectionCreate, InspectionUpdate, UploadFile, create, update, delete, upload_image,
  request_analysis,
}

-- The requests that write.
pub data Request (W : Type 0) : Type 0 where
  creation : InspectionCreate → Request W
  change : ℕ → InspectionUpdate → Request W
  removal : ℕ → Request W
  image : ℕ → UploadFile → Option W → Option W → Request W
  analysis : ℕ → Request W

module _ {W D A : Type 0} where
  forgotten-Atomic : (m : Exec W D A) → Atomic m → Atomic (do m; pure tt)
  forgotten-Atomic m k = record { at = λ s e h. ground (arith, k.at s e) }

module _ {W D : Type 0} (settings : Settings W) (image_size : Text → Option (ℕ × ℕ))
    (actor : User) where
  -- The service's operation for a request, its answer left out.
  unfoldable pub serve : Request W → Exec W D (Unit {0})
  serve (Request.creation body) = do create body actor; pure tt
  serve (Request.change id body) = do update id body actor; pure tt
  serve (Request.removal id) = do delete id actor; pure tt
  serve (Request.image id upload lat lng) = do
    upload_image settings image_size id upload lat lng actor
    pure tt
  serve (Request.analysis id) = do request_analysis id actor; pure tt

  pub serve-Atomic : (q : Request W) → Atomic (serve q)
  unfolding serve create delete upload_image request_analysis
  serve-Atomic (Request.creation body) = record { at = λ s e h. ground arith }
  serve-Atomic (Request.change id body) =
      forgotten-Atomic (update id body actor)
        (record { at = λ s e h. update_raised id body actor s h })
  serve-Atomic (Request.removal id) = record { at = λ s e h. ground arith }
  serve-Atomic (Request.image id upload lat lng) = record { at = λ s e h. ground arith }
  serve-Atomic (Request.analysis id) = record { at = λ s e h. ground arith }

  -- A request to create, change, delete, upload to or analyse an inspection that raises leaves the
  -- committed tables as they were, and its session empty.
  pub serve_raised :
      (q : Request W) (s : World W D) {e : Exn}
      → (in_session (serve q) s).0 ≡ err e
      → ((in_session (serve q) s).1.committed ≡ s.committed)
        × ((in_session (serve q) s).1.working ≡ s.committed)
  serve_raised q s {e} h = in_session-Atomic (serve q) s e (serve-Atomic q) h
