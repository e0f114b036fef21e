-- ===== src/Model/Base.antt =====
-- backend/internal/model/base.go
use gb_516_hydropower_gate_d.Prelude.{ℕ, String, Option, ◌==◌, nat_eq, if◌then◌else◌}

pub record BaseModel : Type 0 where
  pub id : ℕ
  pub code : String
  pub name : String
  pub status : String
  pub version : ℕ
  pub description : String
  pub created_at : ℕ
  pub updated_at : ℕ
  pub deleted_at : Option ℕ

-- The hook `BeforeCreate`.
abbrev pub before_create : BaseModel → BaseModel
before_create b = record b { version = if b.version == 0 then 1 else b.version }
