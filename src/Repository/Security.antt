-- ===== src/Repository/Security.antt =====
-- backend/internal/repository/security.go
pub mod Laws
use gb_516_hydropower_gate_d.Prelude.{String, ◌&&◌, List, ◌==◌, string_eq}
use gb_516_hydropower_gate_d.Failure.{Result, ok}
use gb_516_hydropower_gate_d.Model.{AuditLog, User}
use gb_516_hydropower_gate_d.Orm.{Answer, answered, failed, from_answer, from_first}
use gb_516_hydropower_gate_d.Repository.Database.{Platform, Db, Context, Exec}
use gb_516_hydropower_gate_d.Repository.Tables.{audits, users}

abbrev pub audit_stored : Answer (AuditLog × List AuditLog) → Exec (Unit {0})
audit_stored (answered (row, rows)) db = (ok tt, record db { audits = rows })
audit_stored (failed n) db = (from_answer (failed n), db)

module _ (p : Platform) where
  unfoldable pub find_user_by_username : String → Db → Result User
  find_user_by_username username db =
      from_first (p.gorm.first User users (λ row. row.username == username && row.active) db.users)

  -- Create(log)
  unfoldable pub append_audit : Context → AuditLog → Exec (Unit {0})
  append_audit ctx log db = audit_stored (p.gorm.create AuditLog audits ctx.now log db.audits) db
