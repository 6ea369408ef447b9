-- ===== src/Schema/Platform.antt =====
-- Rows of `users`, `audit_logs` and `knowledge_documents` (backend/app/db/models/audit.py, backend/app/db/models/knowledge.py, backend/app/db/models/user.py), column by column.
-- Keys and times are numbers, NUMERIC columns hold values of W (costs of D), JSONB columns JSON.
use road_vision_ai.Base.{Bool, Option, String, ℕ}
use road_vision_ai.Text.{Text}
use road_vision_ai.Json.{Json}
use road_vision_ai.Enums.{DocType, UserRole}

pub record User : Type 0 where
  pub id : ℕ
  pub username : String
  pub email : String
  pub password_hash : String
  pub role : UserRole
  pub is_active : Bool
  pub specialization : Option String
  pub region : Option String
  pub vehicle_id : Option String
  pub equipment_id : Option String
  pub can_manage_users : Option Bool
  pub can_manage_models : Option Bool
  pub can_configure_ai : Option Bool
  pub last_login : Option ℕ
  pub created_at : ℕ
  pub updated_at : ℕ
  pub deleted_at : Option ℕ
  pub version : ℕ

pub record AuditLog (W : Type 0) : Type 0 where
  pub id : ℕ
  pub user_id : Option ℕ
  pub action : String
  pub entity_type : String
  pub entity_id : ℕ
  pub old_value : Option (Json W)
  pub new_value : Option (Json W)
  pub ip_address : Option String
  pub user_agent : Option String
  pub timestamp : ℕ

pub record KnowledgeDocument : Type 0 where
  pub id : ℕ
  pub title : String
  pub doc_type : DocType
  pub language : String
  pub content : Text
  pub status : String
  pub embedding_count : ℕ
  pub uploaded_at : ℕ
  pub updated_at : ℕ
  pub lock_version : ℕ
  pub source : Option String
  pub version : Option String
  pub page_count : Option ℕ
  pub uploaded_by : Option ℕ
  pub deleted_at : Option ℕ
