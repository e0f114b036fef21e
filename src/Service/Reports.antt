-- ===== src/Service/Reports.antt =====
-- backend/internal/service/security.go: ListAudits, EntityHistory, and the window of AuditSummary.
use gb_516_hydropower_gate_d.Prelude.{
  ℕ, String, ◌||◌, ◌==◌, nat_eq, string_eq, List, ℤ, pos, ltb_ℤ, if◌then◌else◌,
}
use gb_516_hydropower_gate_d.Failure.{Result, err, invalid_input}
use gb_516_hydropower_gate_d.Model.{AuditLog}
use gb_516_hydropower_gate_d.Repository.{Platform, Db}
use gb_516_hydropower_gate_d.Repository.Paging as Paging

-- time.Hour, in nanoseconds
abbrev pub hour : ℕ
hour = 3600000000000

-- The window that AuditSummary reads, in nanoseconds: a day for one that is below an hour, 90 days for
-- one that is above them.
unfoldable pub audit_window : ℤ → ℤ
audit_window window =
    let shown = if ltb_ℤ window (pos hour) then pos 86400000000000 else window in
    if ltb_ℤ (pos 7776000000000000) shown then pos 7776000000000000 else shown

unfoldable pub list_audits : Platform → ℤ → ℤ → String → Db → Result (List AuditLog × ℕ)
list_audits p page page_size search db = Paging.list_audits p page page_size search db

unfoldable pub entity_history : Platform → String → ℕ → ℤ → Db → Result (List AuditLog)
entity_history p entity_type entity_id limit db =
    if entity_id == 0 || entity_type == ""
    then err invalid_input
    else Paging.entity_history p entity_type entity_id limit db
