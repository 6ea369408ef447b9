-- ===== src/Worker/Outputs.antt =====
-- What an analysis that returns leaves in the session (`_run` of
-- backend/app/workers/analysis_worker.py).
use mathlib.Core.List.{append-nil}
use road_vision_ai.Base.{
  ℕ, ◌≤◌, ◌≡◌, refl, not, List, [], ◌∷◌, map, ◌==◌, select, length, All, All-append,
  UniqueBy-select, UniqueBy-append, All2, length-map, select_out, select-select, select_none,
  select_last, sym, select-append, select-All, ==_refl,
}
use road_vision_ai.Float.{Float, IsOrdered}
use road_vision_ai.Float.Sums.{IsArithmetic, InUnit, mean-InUnit}
use road_vision_ai.Schema.{RoadImage, Inspection, PciScore, AnalysisResult}
use road_vision_ai.Constraints.{OrNull, References, IsConsistent}
use road_vision_ai.Detection.Bounds.{round_nonneg, round_unit}
use road_vision_ai.Pci.{DetectionInput, PciResult}
use road_vision_ai.Store.{Db}
use road_vision_ai.Store.Ensures.{Ensures}
use road_vision_ai.Worker.{
  Runtime, Found, pci_input, confidence_of, clear_outputs, cascade, save_outputs,
}
use road_vision_ai.Worker.Storing.{During, Stored, IsSure, IsInputOf, is_of}

module _ {W D : Type 0} ⦃f : Float W⦄ (rt : Runtime W) (b : Db W D) (id : ℕ)
    (images : List (RoadImage W)) where
  -- The outputs of the earlier analysis are gone.
  pub clear_outputs-During :
      IsConsistent b
      → Ensures (λ db. db ≡ b) (clear_outputs id images) (λ _ db. During rt b id images [] db)
  unfolding clear_outputs cascade
  clear_outputs-During c = record {
    at = λ s e. rw e (record {
      images_kept = refl;
      types_kept = refl;
      models_kept = refl;
      inspections_kept = refl;
      detections = select-All _ _ b.damage_detections c.detections;
      stored = rw (select_none (is_of images) _ (select_out (is_of images) b.damage_detections)) tt;
      scores = select-All _ _ b.pci_scores c.scores;
      results = select-All _ _ b.analysis_results c.results;
      one_score = UniqueBy-select _ _ b.pci_scores c.one_score;
      one_result = UniqueBy-select _ _ b.analysis_results c.one_result;
      other_detections = select-select _ b.damage_detections;
      other_scores = select-select _ b.pci_scores;
      other_results = select-select _ b.analysis_results;
      no_score = select_out (λ (p : PciScore W). p.inspection_id == id) b.pci_scores;
      no_result = select_out (λ (a : AnalysisResult W). a.inspection_id == id) b.analysis_results;
    });
  }

  -- The session after an analysis of `inputs` with the result `pci`.
  pub record Scored (inputs : List (DetectionInput W)) (pci : PciResult W) (db : Db W D)
      : Type 0 where
    pub inspections_kept : db.inspections ≡ b.inspections
    pub consistent : IsConsistent db
    pub stored :
        All2 (IsInputOf rt b.damage_types) (select (is_of images) db.damage_detections) inputs
    pub other_detections :
        select (λ d. not (is_of images d)) db.damage_detections
        ≡ select (λ d. not (is_of images d)) b.damage_detections
    pub other_scores :
        select (λ (p : PciScore W). not (p.inspection_id == id)) db.pci_scores
        ≡ select (λ (p : PciScore W). not (p.inspection_id == id)) b.pci_scores
    pub other_results :
        select (λ (a : AnalysisResult W). not (a.inspection_id == id)) db.analysis_results
        ≡ select (λ (a : AnalysisResult W). not (a.inspection_id == id)) b.analysis_results
    pub score : PciScore W
    pub our_scores : select (λ (p : PciScore W). p.inspection_id == id) db.pci_scores ≡ score ∷ []
    pub score_is : score.score ≡ pci.score
    pub severity_is : score.severity_level ≡ pci.severity_level
    pub priority_is : score.priority_level ≡ pci.priority_level
    pub result : AnalysisResult W
    pub our_results :
        select (λ (a : AnalysisResult W). a.inspection_id == id) db.analysis_results ≡ result ∷ []
    pub total_is : result.total_detections ≡ length inputs

module _ {W D : Type 0} ⦃f : Float W⦄ (laws : IsOrdered W) (more : IsArithmetic W) (rt : Runtime W)
    (b : Db W D) (id : ℕ) (images : List (RoadImage W)) where
  confidences-InUnit :
      (found : List (Found W))
      → All (IsSure rt b id images) found
      → All InUnit (map (λ (y : Found W). y.det.confidence) found)
  confidences-InUnit [] sure = tt
  confidences-InUnit (x ∷ xs) sure = (sure.0, confidences-InUnit xs sure.1)

  confidence_of-InUnit :
      (found : List (Found W))
      → All (IsSure rt b id images) found
      → OrNull InUnit (confidence_of found)
  unfolding confidence_of
  confidence_of-InUnit [] sure = tt
  confidence_of-InUnit (x ∷ xs) sure =
      let conf = λ (y : Found W). y.det.confidence in
      let mean =
        rw (length-map conf xs) at
          (mean-InUnit more x.det.confidence (map conf xs) (confidences-InUnit (x ∷ xs) sure)) in
      (round_nonneg laws _ mean.0, round_unit laws _ mean.1)

  -- The rows of the result are added to tables that have none.
  pub save_outputs-Scored :
      (found : List (Found W)) (pci : PciResult W)
      → References (λ (r : Inspection). r.id) b.inspections id
      → pci.score ≤ 10000
      → Ensures
          (Stored rt b id images [] found)
          (save_outputs rt id found pci)
          (λ _ db. Scored rt b id images (map (pci_input rt) found) pci db)
  unfolding save_outputs
  save_outputs-Scored found pci there bound = record {
    at = λ s (w, sure). record {
      inspections_kept = w.inspections_kept;
      consistent = record {
        detections = rw (w.images_kept, w.types_kept, w.models_kept) w.detections;
        scores =
            rw w.inspections_kept
              (All-append _ s.working.pci_scores (_ ∷ []) w.scores (((tt, bound), there), tt));
        results = rw w.inspections_kept (
            All-append _ s.working.analysis_results (_ ∷ []) w.results
              ((confidence_of-InUnit found sure, there), tt));
        one_score = UniqueBy-append _ _ s.working.pci_scores w.one_score w.no_score;
        one_result = UniqueBy-append _ _ s.working.analysis_results w.one_result w.no_result;
      };
      stored = w.stored;
      other_detections = w.other_detections;
      other_scores =
          rw
            (
              select-append (λ (p : PciScore W). not (p.inspection_id == id)) s.working.pci_scores
                  (_ ∷ []),
              ==_refl id,
              append-nil,
            )
            w.other_scores;
      other_results =
          rw
            (
              select-append (λ (a : AnalysisResult W). not (a.inspection_id == id))
                  s.working.analysis_results (_ ∷ []),
              ==_refl id,
              append-nil,
            )
            w.other_results;
      score = _;
      our_scores = select_last _ s.working.pci_scores _ w.no_score (==_refl id);
      score_is = refl;
      severity_is = refl;
      priority_is = refl;
      result = _;
      our_results = select_last _ s.working.analysis_results _ w.no_result (==_refl id);
      total_is = sym (length-map (pci_input rt) found);
    };
  }
