-- ===== src/Witness/Directives.antt =====
-- The theorems on directives and confirmations at a concrete database.
use gb_516_hydropower_gate_d.Prelude.{
  String, ◌≡◌, ◌≢◌, ◌⊎◌, List, ◌++◌, any, rewrite, Extends, refl, true, false, [], ◌∷◌, arith,
}
use gb_516_hydropower_gate_d.Failure.{ok}
use gb_516_hydropower_gate_d.Text.{trim_space, to_upper, equal_fold, ascii_only}
use gb_516_hydropower_gate_d.Orm.Memory.{memory}
use gb_516_hydropower_gate_d.Model.{OperationDirective, GateUnit, DirectiveApproval, AuditLog}
use gb_516_hydropower_gate_d.Constants.{can_transition}
use gb_516_hydropower_gate_d.Constants.Edges.{DirectiveStep}
use gb_516_hydropower_gate_d.Repository.{
  Db, Exec, gates, directives, schema, ◌>>=◌, transaction, within_transaction,
}
use gb_516_hydropower_gate_d.Repository.Store
use gb_516_hydropower_gate_d.Repository.Store.{update, overwrite, is_version}
use gb_516_hydropower_gate_d.Repository.Directives
use gb_516_hydropower_gate_d.Repository.Directives.{transition_with_approval}
use gb_516_hydropower_gate_d.Orm.{scoped}
use gb_516_hydropower_gate_d.Repository.Security.{append_audit}
use gb_516_hydropower_gate_d.Service.Security.{audit_log, audit}
use gb_516_hydropower_gate_d.Service.GateMove.Fate.{GateIs}
use gb_516_hydropower_gate_d.Service.Directive.{
  transition, admit, record_transition, link_gate, move_gate, directive_role_allowed,
}
use gb_516_hydropower_gate_d.Service.Directive.Written.{IsAdvanced, IsSignedOff, IsLogged}
use gb_516_hydropower_gate_d.Service.Directive.Effects.{transition-admitted, transition-recorded}
use gb_516_hydropower_gate_d.Service.Directive.GateEffects.{execution_moves_gate, abort_locks_gate}
use gb_516_hydropower_gate_d.Witness.Data.{
  platform, context, caller, to_status, database, directive_of, succeeds, runs,
}

abbrev start : Exec OperationDirective
start = transition platform context 1 (to_status "executing" 3) (caller "carl" "operator")

start-succeeds : succeeds (start (database "closed" "approved" "pending")).0 ≡ true
unfolding transition admit record_transition link_gate move_gate directive_role_allowed
    within_transaction transaction ◌>>=◌ update overwrite append_audit audit audit_log
    transition_with_approval trim_space to_upper equal_fold memory can_transition Store.get
    Store.get_by_code Directives.get
start-succeeds = refl

abbrev before_start : Db
before_start = database "closed" "approved" "pending"

execution_moves_gate_example :
    (gate : GateUnit) × (Store.get_by_code platform gates "GU-1" before_start ≡ ok gate)
    × (gate.status ≢ "locked")
    × ((gate.status ≢ "open") × GateIs platform "GU-1" "moving" (start before_start).1
        ⊎ (gate.status ≡ "open") × GateIs platform "GU-1" "open" (start before_start).1)
unfolding memory trim_space Directives.get Store.get
execution_moves_gate_example =
    execution_moves_gate platform context (to_status "executing" 3) (caller "carl" "operator") 1
      {d = directive_of "approved" 3} (omega arith, tt) refl refl
      (runs start before_start start-succeeds)

transition-admitted_example :
    DirectiveStep "approved" "executing"
    × (◌≢◌ {A = String} "executing" "completed")
    × (directive_role_allowed "executing" "operator" ≡ true)
    × (◌≡◌ {A = String} "executing" "approved"
        → (◌≢◌ {A = String} "anna" "") × (equal_fold ascii_only "anna" "carl" ≡ false))
unfolding memory trim_space Directives.get Store.get
transition-admitted_example =
    transition-admitted platform context 1 (to_status "executing" 3) (caller "carl" "operator")
      {d = directive_of "approved" 3} {db = before_start} refl
      (runs start before_start start-succeeds)

transition-recorded_example :
    (any (scoped (schema directives) (is_version directives 1 3)) before_start.directives ≡ true)
    × ((written : OperationDirective) × IsAdvanced context
          (to_status "executing" 3)
          (caller "carl" "operator")
          (directive_of "approved" 3)
          written
        × ((start before_start).1.directives
            ≡ rewrite
                (scoped (schema directives) (is_version directives 1 3))
                (overwrite directives written)
                before_start.directives))
    × ((filed : List DirectiveApproval) × IsSignedOff context
          (to_status "executing" 3)
          (caller "carl" "operator")
          1
          "approved"
          filed
        × ((start before_start).1.approvals ≡ before_start.approvals ++ filed))
    × ((entry : AuditLog) × IsLogged context
          (to_status "executing" 3)
          (caller "carl" "operator")
          1
          "approved"
          entry
        × Extends (before_start.audits ++ entry ∷ []) (start before_start).1.audits)
    × ((start before_start).1.reservoirs ≡ before_start.reservoirs)
    × ((start before_start).1.confirmations ≡ before_start.confirmations)
unfolding memory trim_space Directives.get Store.get
transition-recorded_example =
    transition-recorded platform context 1 (to_status "executing" 3) (caller "carl" "operator")
      {d = directive_of "approved" 3} {db = before_start} refl
      (runs start before_start start-succeeds)

abbrev abort : Exec OperationDirective
abort = transition platform context 1 (to_status "aborted" 3) (caller "carl" "operator")

abbrev before_abort : Db
before_abort = database "moving" "executing" "pending"

abort-succeeds : succeeds (abort before_abort).0 ≡ true
unfolding transition admit record_transition link_gate move_gate directive_role_allowed
    within_transaction transaction ◌>>=◌ update overwrite append_audit audit audit_log
    transition_with_approval trim_space to_upper equal_fold memory can_transition Store.get
    Store.get_by_code Directives.get
abort-succeeds = refl

abort_locks_gate_example :
    (gate : GateUnit) × (Store.get_by_code platform gates "GU-1" before_abort ≡ ok gate)
    × GateIs platform "GU-1" "locked" (abort before_abort).1
unfolding memory trim_space Directives.get Store.get
abort_locks_gate_example =
    abort_locks_gate platform context (to_status "aborted" 3) (caller "carl" "operator") 1
      {d = directive_of "executing" 3} {db = before_abort} (omega arith, tt) refl refl refl
      (runs abort before_abort abort-succeeds)
