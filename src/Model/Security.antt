-- ===== src/Model/Security.antt =====
-- backend/internal/model/security.go
use gb_516_hydropower_gate_d.Prelude.{ℕ, String, Bool}

pub record User : Type 0 where
  pub id : ℕ
  pub username : String
  pub display_name : String
  pub password_hash : String
  pub role : String
  pub active : Bool
  pub created_at : ℕ
  pub updated_at : ℕ

pub record AuditLog : Type 0 where
  pub id : ℕ
  pub request_id : String
  pub actor : String
  pub action : String
  pub entity_type : String
  pub entity_id : ℕ
  pub before_state : String
  pub after_state : String
  pub detail : String
  pub created_at : ℕ

abbrev pub role_viewer : String
role_viewer = "viewer"

abbrev pub role_operator : String
role_operator = "operator"

abbrev pub role_reviewer : String
role_reviewer = "reviewer"

abbrev pub role_admin : String
role_admin = "admin"
