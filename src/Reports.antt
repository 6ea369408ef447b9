-- ===== src/Reports.antt =====
-- ReportService (backend/app/services/report_service.py) and ReportRepository
-- (backend/app/repositories/report_repository.py). The drawing of the PDF and the signature of a
-- link belong to ReportLab and to MinIO's client.
pub mod Download
use road_vision_ai.Base.{
  ℕ, ◌≡◌, Bool, true, false, not, ◌&&◌, String, List, [], ◌∷◌, ◌++◌, map, Option, none, some,
  Result, ok, err, http, ◌==◌, length, find, any, is_some, str_eq, if◌then◌else◌,
}
use road_vision_ai.Text.{Text, codes, is_prefix}
use road_vision_ai.Json.{Json, ℤ, Items, Fields}
use road_vision_ai.Schema.{InspectionReport, MaintenancePlan, User}
use road_vision_ai.Store.{
  Db, Exec, pure, raise, lift, query, gets, or_raise, raise_when, write, new_key, commit, ◌>>=◌,
  ◌>>◌,
}
use road_vision_ai.Storage.{Settings, slash, partition, put_object}
use road_vision_ai.Repository.{Model, get_or_404, list, add, audit_log}

-- A section's heading with the text under it.
abbrev pub Section : Type 0
Section = String × String

-- `build` draws a title, a time and the sections, and may raise on the markup of a text; `sign` signs a link to an object; `key_text` is `str` of a key.
pub record Publishing : Type 0 where
  pub build : String → ℕ → List Section → Result Text
  pub sign : Text → Text → Result String
  pub key_text : ℕ → String

abbrev pub report_sections : List String
report_sections =
    "1. Page de garde" ∷ "2. Résumé exécutif" ∷ "3. Contexte de l'inspection"
    ∷ "4. Évaluation des dégradations" ∷ "5. Analyse PCI (ASTM D6433)"
    ∷ "6. Classement des priorités" ∷ "7. Recommandations de maintenance" ∷ "8. Budget estimatif"
    ∷ "9. Planification des interventions" ∷ "10. Analyse des risques" ∷ "11. Justification XAI"
    ∷ "12. Références normatives" ∷ []

abbrev pub placeholder : String
placeholder =
    "Section générée automatiquement — le contenu détaillé sera produit par le pipeline IA (TechnicalReportAgent) lors de l'analyse complète."

-- `section.startswith("2.") and executive_summary`
unfoldable pub paragraph_of : Option String → String → String
paragraph_of none section = placeholder
paragraph_of (some summary) section =
    if is_prefix (codes "2.") (codes section) && not (str_eq summary "")
    then summary
    else placeholder

unfoldable pub story_of : Option String → List Section
unfolding paragraph_of
story_of executive_summary =
    map (λ section. (section, paragraph_of executive_summary section)) report_sections

-- `_build_pdf`
unfoldable pub build_pdf : Publishing → ℕ → String → Option String → Result Text
unfolding story_of
build_pdf press now title executive_summary = press.build title now (story_of executive_summary)

-- `{plan_id}/{uuid4().hex}_rapport.pdf`
unfoldable pub object_name_of : (ℕ → Text) → ℕ → ℕ → Text
object_name_of uuid_text plan_id id =
    uuid_text plan_id ++ slash ∷ uuid_text id ++ codes "_rapport.pdf"

module _ {W : Type 0} where
  -- A new row with the defaults of its columns.
  unfoldable pub new_report : ℕ → ℕ → ℕ → String → Option String → Text → ℕ → InspectionReport W
  new_report id now plan_id title executive_summary file_path file_size = record {
    id = id;
    plan_id = plan_id;
    title = title;
    generated_at = now;
    created_at = now;
    xai_explanation_id = none;
    executive_summary = executive_summary;
    damage_assessment = none;
    pci_analysis = none;
    priority_ranking = none;
    recommendations = none;
    estimated_budget = none;
    estimated_duration = none;
    risk_analysis = none;
    xai_justification = none;
    normative_refs = some (Json.arr Items.nil);
    file_path = some file_path;
    file_size = some file_size;
  }

  -- `not report.file_path`: the empty path is false too.
  unfoldable pub report_file : InspectionReport W → Option Text
  report_file r = elim r.file_path [ none ↦ none | some [] ↦ none | some (c ∷ s) ↦ some (c ∷ s) ]

module _ {W D : Type 0} where
  -- The table has no `deleted_at` and no `version`, and no trigger.
  unfoldable pub reports : Model W D (InspectionReport W)
  reports = record {
    rows = λ db. db.inspection_reports;
    with_rows = λ rows db. record db { inspection_reports = rows };
    key = λ r. r.id;
    soft = false;
    deleted_at = λ r. none;
    delete_at = λ now r. r;
    version = λ r. 1;
    before_update = λ now old new. new;
  }

  unfoldable pub get_by_plan : ℕ → Exec W D (Option (InspectionReport W))
  get_by_plan plan_id =
      query (λ db. find (λ (r : InspectionReport W). r.plan_id == plan_id) db.inspection_reports)

  unfoldable pub plan_exists : ℕ → Exec W D Bool
  plan_exists plan_id =
      query (λ db. any (λ (p : MaintenancePlan W). p.id == plan_id) db.maintenance_plans)

  unfoldable pub generate_for_plan :
      Publishing → Settings W → ℕ → String → Option String → User → Exec W D (InspectionReport W)
  unfolding plan_exists get_by_plan build_pdf put_object reports add audit_log
  generate_for_plan press settings plan_id title executive_summary actor = do
    exists ← plan_exists plan_id
    raise_when (not exists) (http 404)
    existing ← get_by_plan plan_id
    raise_when (is_some existing) (http 409)
    now ← gets (λ s. s.now)
    pdf_bytes ← lift (build_pdf press now title executive_summary)
    let bucket = settings.minio_bucket_reports
    file_id ← new_key
    object_name ← gets (λ s. object_name_of s.uuid_text plan_id file_id)
    put_object bucket object_name pdf_bytes
    id ← new_key
    report ← add reports (
        new_report id now plan_id title executive_summary (bucket ++ slash ∷ object_name)
          (length pdf_bytes))
    audit_log "REPORT_GENERATED" "inspection_reports" report.id (some actor.id)
        (some (
          Json.obj (
            Fields.field "plan_id" (Json.str (press.key_text plan_id))
              (Fields.field "file_size" (Json.int (ℤ.pos (length pdf_bytes))) Fields.end))))
        none none
    commit
    pure report

  unfoldable pub get_report : ℕ → Exec W D (InspectionReport W)
  unfolding reports get_or_404
  get_report = get_or_404 reports

  unfoldable pub list_reports : ℕ → ℕ → Exec W D (List (InspectionReport W) × ℕ)
  unfolding reports list
  list_reports limit offset = list reports limit offset

  unfoldable pub download_url : Publishing → ℕ → Exec W D String
  unfolding get_report
  download_url press report_id = do
    report ← get_report report_id
    path ← or_raise (report_file report) (http 404)
    let (bucket, object_name) = partition path
    lift (press.sign bucket object_name)
