-- ===== src/Repository/Security/Laws.antt =====
-- What an appended audit record leaves in the database.
use gb_516_hydropower_gate_d.Prelude.{ℕ, ◌≡◌, refl, List, ◌++◌, [], ◌∷◌, arith, ap, ◌∙◌}
use gb_516_hydropower_gate_d.Failure.{ok}
use gb_516_hydropower_gate_d.Model.{AuditLog}
use gb_516_hydropower_gate_d.Orm.{Answer, answered, failed}
use gb_516_hydropower_gate_d.Repository.Database.{Platform, Db, Context}
use gb_516_hydropower_gate_d.Repository.Calls.Runs.{Runs}
use gb_516_hydropower_gate_d.Repository.Tables.{audits}
use gb_516_hydropower_gate_d.Repository.Security.{audit_stored, append_audit}

-- The database with one more record at the end of the audit log: `log`, as it was stored.
pub record IsAudited (now : ℕ) (log : AuditLog) (db db' : Db) : Type 0 where
  pub key : ℕ
  pub appended : db' ≡ record db { audits = db.audits ++ audits.stamp key now log ∷ [] }

audit_stored-Runs :
    (x : Answer (AuditLog × List AuditLog)) (db : Db) {u : Unit {0}} {db' : Db}
    → audit_stored x db ≡ (ok u, db')
    → (row : AuditLog) × (rows : List AuditLog) × (x ≡ answered (row, rows))
      × (db' ≡ record db { audits = rows })
audit_stored-Runs (answered (row, rows)) db h = (row, rows, refl, ground arith)
audit_stored-Runs (failed n) db h = absurd (ground arith)

pub append_audit-Runs :
    (p : Platform) (ctx : Context) (log : AuditLog) {db db' : Db} {u : Unit {0}}
    → Runs (append_audit p ctx log) db u db'
    → IsAudited ctx.now log db db'
unfolding append_audit
append_audit-Runs p ctx log {db} h =
    let (row, rows, e, d) = audit_stored-Runs _ db h.run in
    let (k, fresh, apart, r, appended) =
      p.gorm.create_appends AuditLog audits ctx.now log row db.audits rows e in
    record {
      key = k;
      appended =
          d
          ∙ ap (λ xs. record db { audits = xs }) appended
          ∙ ap (λ (x : AuditLog). record db { audits = db.audits ++ x ∷ [] }) r;
    }
