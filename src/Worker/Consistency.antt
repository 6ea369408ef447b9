-- ===== src/Worker/Consistency.antt =====
-- The tables after a run of the worker (backend/app/workers/analysis_worker.py): their constraints,
-- and the score of an inspection that ends in TERMINEE.
use road_vision_ai.Base.{
  ℕ, ◌≡◌, refl, ap, ◌∙◌, inl, inr, List, [], ◌∷◌, map, some, ok, Result-cases, Option-cases, ◌==◌,
  not, any-map, select, length, All2, All-map, find_sound,
}
use road_vision_ai.Float.{Float, IsOrdered}
use road_vision_ai.Float.Sums.{IsArithmetic}
use road_vision_ai.Enums.{InspectionStatus}
use road_vision_ai.Schema.{Inspection, PciScore, AnalysisResult}
use road_vision_ai.Constraints.{IsConsistent}
use road_vision_ai.Pci.{DetectionInput, PciResult, compute_pci}
use road_vision_ai.Store.{Db, World, in_session}
use road_vision_ai.Worker.{Runtime, analyse, finish, settle, attempt, recover, run_analysis}
use road_vision_ai.Worker.Keeps.{analyse-Keeps}
use road_vision_ai.Worker.Outcome.{
  by_id, closed, closed-id, closed-status, closed-find, start, run_ok, attempt_missing,
  analysis_failed, run_analysis_failed,
}
use road_vision_ai.Worker.Storing.{IsInputOf, is_of}
use road_vision_ai.Worker.Images.{IsCalibrated}
use road_vision_ai.Worker.Analysis.{images_in, Analysed, analyse-Analysed}

-- The tables with the last write of the worker.
abbrev with_status : {W D : Type 0} → ℕ → InspectionStatus → ℕ → Db W D → Db W D
with_status id status now db = record db { inspections = map (closed id status now) db.inspections }

with_status-IsConsistent :
    {W D : Type 0} ⦃f : Float W⦄ (id : ℕ) (status : InspectionStatus) (now : ℕ) (db : Db W D)
    → IsConsistent db
    → IsConsistent (with_status id status now db)
with_status-IsConsistent {W} {D} id status now db c =
    let same = λ (k : ℕ).
      any-map (closed id status now) (λ (r : Inspection). r.id == k) (λ (r : Inspection). r.id == k)
        (λ (r : Inspection). ap (λ (n : ℕ). n == k) (closed-id id status now r)) db.inspections in
    record {
      detections = c.detections;
      scores = All-map db.pci_scores (λ p h. (h.0, same p.inspection_id ∙ h.1)) c.scores;
      results = All-map db.analysis_results (λ a h. (h.0, same a.inspection_id ∙ h.1)) c.results;
      one_score = c.one_score;
      one_result = c.one_result;
    }

module _ {W D : Type 0} ⦃f : Float W⦄ (rt : Runtime W) (id : ℕ) (s : World W D) where
  attempt_whole :
      {u : Unit {0}}
      → (analyse rt id s).0 ≡ ok u
      → (attempt rt id s).1.committed
        ≡ with_status id InspectionStatus.terminee
            (analyse rt id s).1.now
            (analyse rt id s).1.working
  unfolding attempt settle finish recover
  attempt_whole h = rw (run_ok rt id s h) refl

module _ {W D : Type 0} ⦃f : Float W⦄ (rt : Runtime W) (id : ℕ) where
  -- The tables `db` hold, for the inspection, what the PCI engine makes of the detections that they
  -- hold for the images of the inspection (`old` are the tables of before), and nothing has changed
  -- for other images and inspections.
  pub record HoldsScore (old db : Db W D) : Type 0 where
    pub inputs : List (DetectionInput W)
    pub stored :
        All2
          (IsInputOf rt old.damage_types)
          (select (is_of (images_in id old)) db.damage_detections)
          inputs
    pub pci : PciResult W
    pub computed : compute_pci inputs (length (images_in id old)) ≡ ok pci
    pub score : PciScore W
    pub one_score : select (λ (p : PciScore W). p.inspection_id == id) db.pci_scores ≡ score ∷ []
    pub levels :
        (score.score ≡ pci.score)
        × (score.severity_level ≡ pci.severity_level)
        × (score.priority_level ≡ pci.priority_level)
    pub result : AnalysisResult W
    pub one_result :
        select (λ (a : AnalysisResult W). a.inspection_id == id) db.analysis_results ≡ result ∷ []
    pub total : result.total_detections ≡ length inputs
    pub other_detections :
        select (λ d. not (is_of (images_in id old) d)) db.damage_detections
        ≡ select (λ d. not (is_of (images_in id old) d)) old.damage_detections
    pub other_scores :
        select (λ (p : PciScore W). not (p.inspection_id == id)) db.pci_scores
        ≡ select (λ (p : PciScore W). not (p.inspection_id == id)) old.pci_scores
    pub other_results :
        select (λ (a : AnalysisResult W). not (a.inspection_id == id)) db.analysis_results
        ≡ select (λ (a : AnalysisResult W). not (a.inspection_id == id)) old.analysis_results

  held : (old db : Db W D) → Analysed rt id old db → HoldsScore old db
  held old db (inputs, pci, computed, w) = record {
    inputs = inputs;
    stored = w.stored;
    pci = pci;
    computed = computed;
    score = w.score;
    one_score = w.our_scores;
    levels = (w.score_is, w.severity_is, w.priority_is);
    result = w.result;
    one_result = w.our_results;
    total = w.total_is;
    other_detections = w.other_detections;
    other_scores = w.other_scores;
    other_results = w.other_results;
  }

  with_status-HoldsScore :
      (status : InspectionStatus) (now : ℕ) (old db : Db W D)
      → HoldsScore old db
      → HoldsScore old (with_status id status now db)
  with_status-HoldsScore status now old db h = record {
    inputs = h.inputs;
    stored = h.stored;
    pci = h.pci;
    computed = h.computed;
    score = h.score;
    one_score = h.one_score;
    levels = h.levels;
    result = h.result;
    one_result = h.one_result;
    total = h.total;
    other_detections = h.other_detections;
    other_scores = h.other_scores;
    other_results = h.other_results;
  }

module _ {W D : Type 0} ⦃f : Float W⦄ (laws : IsOrdered W) (more : IsArithmetic W) (rt : Runtime W)
    (calibrated : IsCalibrated rt) (id : ℕ) (s : World W D) where
  analysed :
      {u : Unit {0}}
      → IsConsistent s.committed
      → (analyse rt id (start rt id s)).0 ≡ ok u
      → Analysed rt id s.committed (analyse rt id (start rt id s)).1.working
  analysed c h =
      rw h at ((analyse-Analysed laws more rt calibrated id s.committed c).at (start rt id s) refl)

  -- If the confidences of YOLO lie in [0, 1], a run of the worker, however it ends, keeps the
  -- constraints of `damage_detections`, `pci_scores` and `analysis_results`: if they held before, the
  -- CHECKs and the foreign keys hold after it, and an inspection has at most one score and one
  -- summary.
  pub run_analysis-IsConsistent :
      IsConsistent s.committed → IsConsistent (run_analysis rt id s).1.committed
  unfolding run_analysis in_session
  run_analysis-IsConsistent c = elim (Result-cases (analyse rt id (start rt id s)).0) [
    | inr (u, h) ↦
        rw (attempt_whole rt id (start rt id s) h)
          (with_status-IsConsistent id InspectionStatus.terminee _ _ (analysed c h).3.consistent)
    | inl (e, h) ↦ elim (Option-cases (by_id id s.committed.inspections)) [
      | inr (r, live) ↦
          let (now, same) = run_analysis_failed rt id s h live in
          rw same (with_status-IsConsistent id InspectionStatus.erreur now s.committed c)
      | inl gone ↦
          let seen = (analyse-Keeps rt id).seen (start rt id s) in
          let missing = ap (λ (db : Db W D). by_id id db.inspections) seen ∙ gone in
          rw (attempt_missing rt id (start rt id s) h missing, seen) c
    ]
  ]

  -- If the confidences of YOLO lie in [0, 1], the constraints held before, and an inspection has
  -- status TERMINEE after a run of the worker, others see for it exactly one score and one summary: the score, its severity and its priority are
  -- those that the PCI engine computes from the stored detections of its images, one input for each,
  -- and the summary counts them. The rows of other images and inspections are as they were.
  pub run_analysis-HoldsScore :
      {r r' : Inspection}
      → IsConsistent s.committed
      → by_id id s.committed.inspections ≡ some r
      → by_id id (run_analysis rt id s).1.committed.inspections ≡ some r'
      → r'.status ≡ InspectionStatus.terminee
      → HoldsScore rt id s.committed (run_analysis rt id s).1.committed
  unfolding run_analysis in_session
  run_analysis-HoldsScore {r} {r'} c live after done =
      elim (Result-cases (analyse rt id (start rt id s)).0) [
        | inr (u, h) ↦ rw (attempt_whole rt id (start rt id s) h) (
            with_status-HoldsScore rt id InspectionStatus.terminee _ s.committed _
              (held rt id s.committed _ (analysed c h)))
        | inl (e, h) ↦
            let now = (analyse rt id (start rt id s)).1.now in
            let last = closed-find id InspectionStatus.erreur now s.committed.inspections live in
            let mine = find_sound (λ (x : Inspection). x.id == id) s.committed.inspections live in
            let failed = closed-status id InspectionStatus.erreur now r mine in
            absurd (cc (rw (analysis_failed rt id s h live, last) at after, failed, done))
      ]
