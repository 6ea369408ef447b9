-- ===== src/Api/Resources.antt =====
-- backend/app/api/v1/endpoints/recommendations.py, reports.py, knowledge.py and dashboard.py.
use mathlib.Core.Option
use road_vision_ai.Base.{ℕ, ◌&&◌, String, List, [], ◌∷◌, Option, none, some, leb, length}
use road_vision_ai.Text.{Text}
use road_vision_ai.Float.{Float}
use road_vision_ai.Enums.{UserRole}
use road_vision_ai.Schema.{
  MaintenanceRecommendation, InspectionReport, KnowledgeDocument, DashboardSnapshot, PciTrend,
}
use road_vision_ai.Store.{Exec, pure, ◌>>=◌, ◌>>◌}
use road_vision_ai.Auth.{get_current_user, require_roles}
use road_vision_ai.Recommendations
use road_vision_ai.Recommendations.{Agents, best_effort}
use road_vision_ai.Reports
use road_vision_ai.Reports.{report_file}
use road_vision_ai.Knowledge
use road_vision_ai.Knowledge.{Hit}
use road_vision_ai.Dashboard
use road_vision_ai.Dashboard.{DashboardSummary}
use road_vision_ai.InspectionService.{UploadFile}
use road_vision_ai.Api.{Outside, validate, has_length, is_limit, optional}

abbrev engineer_or_admin : List UserRole
engineer_or_admin = UserRole.road_engineer ∷ UserRole.administrator ∷ []

-- `rag_search` of the endpoint: a search that raises finds nothing.
unfoldable pub degraded : {W D : Type 0} → Agents W D → Agents W D
degraded agents = record agents {
  rag_search =
      Option.map (λ search ctx decision. best_effort (search ctx decision)) agents.rag_search;
}

module _ {W D T : Type 0} ⦃f : Float W⦄ (outside : Outside W D T) (credentials : Option T) where
  open outside use {settings, crypto, py, agents, press, retrieval, sql}

  unfoldable pub generate_recommendation : ℕ → Exec W D (MaintenanceRecommendation W D)
  unfolding degraded
  generate_recommendation analysis_result_id = do
    actor ← require_roles crypto settings engineer_or_admin credentials
    Recommendations.generate_for_analysis py (degraded agents) analysis_result_id actor

  unfoldable pub list_recommendations : ℕ → ℕ → Exec W D (List (MaintenanceRecommendation W D) × ℕ)
  unfolding validate is_limit
  list_recommendations limit offset = do
    user ← get_current_user crypto settings credentials
    validate (is_limit limit)
    Recommendations.list_pending limit offset

  unfoldable pub get_recommendation : ℕ → Exec W D (MaintenanceRecommendation W D)
  get_recommendation rec_id = do
    user ← get_current_user crypto settings credentials
    Recommendations.get_recommendation rec_id

  unfoldable pub generate_report : ℕ → String → Option String → Exec W D (InspectionReport W)
  unfolding validate has_length
  generate_report plan_id title executive_summary = do
    actor ← require_roles crypto settings engineer_or_admin credentials
    validate (has_length 3 500 title)
    Reports.generate_for_plan press settings plan_id title executive_summary actor

  unfoldable pub list_reports : ℕ → ℕ → Exec W D (List (InspectionReport W) × ℕ)
  unfolding validate is_limit
  list_reports limit offset = do
    user ← get_current_user crypto settings credentials
    validate (is_limit limit)
    Reports.list_reports limit offset

  -- The report with its link, if it has a file.
  unfoldable pub get_report : ℕ → Exec W D (InspectionReport W × Option String)
  get_report report_id = do
    user ← get_current_user crypto settings credentials
    report ← Reports.get_report report_id
    (elim (report_file report) [
      | none ↦ pure (report, none)
      | some path ↦ (do url ← Reports.download_url press report_id; pure (report, some url))
    ])

  -- The address of the redirection.
  unfoldable pub download_report : ℕ → Exec W D String
  download_report report_id = do
    user ← get_current_user crypto settings credentials
    Reports.download_url press report_id

  unfoldable pub ingest_document :
      UploadFile → String → String → Option String → Option String → Exec W D KnowledgeDocument
  unfolding validate has_length
  ingest_document file title doc_type source version = do
    actor ← require_roles crypto settings engineer_or_admin credentials
    validate (
        has_length 3 500 title
        && optional (has_length 0 500) source
        && optional (has_length 0 50) version)
    Knowledge.ingest_document retrieval settings file title doc_type source version actor

  unfoldable pub list_documents : Exec W D (List KnowledgeDocument)
  list_documents = do user ← get_current_user crypto settings credentials; Knowledge.list_documents

  unfoldable pub get_document : ℕ → Exec W D KnowledgeDocument
  get_document document_id = do
    user ← get_current_user crypto settings credentials
    Knowledge.get_document document_id

  -- RagSearchRequest bounds the query's length, the number of results and the threshold.
  unfoldable pub search : Text → Option ℕ → Option W → Exec W D (List (Hit W))
  unfolding validate
  search text top_k threshold = do
    user ← get_current_user crypto settings credentials
    validate (
        leb 3 (length text)
        && leb (length text) 1000
        && optional (λ k. leb 1 k && leb k 20) top_k
        && optional (λ t. f.le (f.lit 0 0) t && f.le t (f.lit 1 0)) threshold)
    Knowledge.search retrieval settings text top_k threshold

  unfoldable pub summary : Option String → Option String → Exec W D (DashboardSummary W)
  summary region province = do
    user ← get_current_user crypto settings credentials
    Dashboard.summary region province

  -- The repository's default limit is 500.
  unfoldable pub pci_trends : Option ℕ → Option ℕ → Option ℕ → Exec W D (List (PciTrend W))
  pci_trends road_section_id date_from date_to = do
    user ← get_current_user crypto settings credentials
    Dashboard.pci_trends road_section_id date_from date_to 500

  unfoldable pub trigger_snapshot : Exec W D (DashboardSnapshot W)
  trigger_snapshot = do
    actor ← require_roles crypto settings (UserRole.administrator ∷ []) credentials
    Dashboard.trigger_snapshot sql actor
