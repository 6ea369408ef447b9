-- ===== src/Constraints.antt =====
-- The constraints of the tables that the worker writes: CHECK, UNIQUE and FOREIGN KEY of
-- `damage_detections`, `pci_scores` and `analysis_results` (backend/app/db/models/inspection.py).
-- A value of a column that may be NULL is checked if it is there.
use road_vision_ai.Base.{ℕ, ◌≤◌, ◌≡◌, true, List, Option, none, some, ◌==◌, any, All, UniqueBy}
use road_vision_ai.Float.{Float}
use road_vision_ai.Float.Sums.{InUnit}
use road_vision_ai.Schema.{
  DamageDetection, PciScore, AnalysisResult, RoadImage, DamageType, AiModel, Inspection,
}
use road_vision_ai.Store.{Db}

abbrev pub OrNull {ℓ κ} : {A : Type ℓ} → (A → Type κ) → Option A → Type κ
OrNull P none = Unit
OrNull P (some a) = P a

-- A row with the key is there.
abbrev pub References {ℓ} : {A : Type ℓ} → (A → ℕ) → List A → ℕ → Type 0
References key rows id = any (λ r. key r == id) rows ≡ true

module _ {W : Type 0} where
  -- The foreign keys of `damage_detections`.
  abbrev pub DetectionKeys :
      List (RoadImage W) → List (DamageType W) → List (AiModel W) → DamageDetection W → Type 0
  DetectionKeys images types models d =
      References (λ (i : RoadImage W). i.id) images d.road_image_id
      × References (λ (t : DamageType W). t.id) types d.damage_type_id
      × OrNull (References (λ (m : AiModel W). m.id) models) d.model_id

module _ {W : Type 0} ⦃f : Float W⦄ where
  -- The checks of `damage_detections`.
  abbrev pub DetectionChecks : DamageDetection W → Type 0
  DetectionChecks d =
      (f.lt (f.lit 0 0) d.bbox_height ≡ true)
      × (f.lt (f.lit 0 0) d.bbox_width ≡ true)
      × (f.le (f.lit 0 0) d.bbox_x ≡ true)
      × (f.le (f.lit 0 0) d.bbox_y ≡ true)
      × InUnit d.confidence_score
      × InUnit d.severity_score

  -- The checks of `pci_scores`; the score is in hundredths.
  abbrev pub ScoreChecks : PciScore W → Type 0
  ScoreChecks p = OrNull InUnit p.priority_score × (p.score ≤ 10000)

  -- The checks of `analysis_results`; its counts are natural numbers.
  abbrev pub ResultChecks : AnalysisResult W → Type 0
  ResultChecks a = OrNull InUnit a.recommendation_confidence

  module _ {D : Type 0} where
    -- The constraints of the three tables hold.
    pub record IsConsistent (db : Db W D) : Type 0 where
      pub detections :
          All
            (λ d. DetectionChecks d × DetectionKeys db.road_images db.damage_types db.ai_models d)
            db.damage_detections
      pub scores :
          All
            (λ p.
              ScoreChecks p × References (λ (r : Inspection). r.id) db.inspections p.inspection_id)
            db.pci_scores
      pub results :
          All
            (λ a.
              ResultChecks a × References (λ (r : Inspection). r.id) db.inspections a.inspection_id)
            db.analysis_results
      pub one_score : UniqueBy (λ (p : PciScore W). p.inspection_id) db.pci_scores
      pub one_result : UniqueBy (λ (a : AnalysisResult W). a.inspection_id) db.analysis_results
