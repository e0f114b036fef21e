-- ===== src/Service/Security.antt =====
-- backend/internal/service/security.go: the audit trail.
pub mod Laws
use gb_516_hydropower_gate_d.Prelude.{ℕ, String, ◌||◌, ◌==◌, string_eq, if◌then◌else◌}
use gb_516_hydropower_gate_d.Failure.{err, audit_fields_missing}
use gb_516_hydropower_gate_d.Model.{AuditLog}
use gb_516_hydropower_gate_d.Repository.{Platform, Context, Exec}
use gb_516_hydropower_gate_d.Repository.Security.{append_audit}
use gb_516_hydropower_gate_d.Service.Common.{Caller}

-- The record that `Audit` appends; its key is given by the database.
unfoldable pub audit_log :
    Context → Caller → String → String → ℕ → String → String → String → AuditLog
audit_log ctx who action entity_type entity_id before after detail = record {
  id = 0;
  request_id = if who.request_id == "" then "untracked" else who.request_id;
  actor = if who.actor == "" then "system" else who.actor;
  action = action;
  entity_type = entity_type;
  entity_id = entity_id;
  before_state = before;
  after_state = after;
  detail = detail;
  created_at = ctx.now;
}

unfoldable pub audit :
    Platform → Context → Caller → String → String → ℕ → String → String → String → Exec (Unit {0})
audit p ctx who action entity_type entity_id before after detail =
    if action == "" || entity_type == ""
    then (λ db. (err audit_fields_missing, db))
    else append_audit p ctx (audit_log ctx who action entity_type entity_id before after detail)
