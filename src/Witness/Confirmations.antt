-- ===== src/Witness/Confirmations.antt =====
-- The theorems on confirmations at a concrete database.
use gb_516_hydropower_gate_d.Prelude.{◌≡◌, refl, true, arith}
use gb_516_hydropower_gate_d.Failure.{ok}
use gb_516_hydropower_gate_d.Text.{trim_space, to_upper}
use gb_516_hydropower_gate_d.Orm.Memory.{memory}
use gb_516_hydropower_gate_d.Model.{OperationDirective, GateUnit, ExecutionConfirmation}
use gb_516_hydropower_gate_d.Constants.{can_transition}
use gb_516_hydropower_gate_d.Repository.{Db, Exec, gates, ◌>>=◌, transaction, within_transaction}
use gb_516_hydropower_gate_d.Repository.Store
use gb_516_hydropower_gate_d.Repository.Store.{update, overwrite}
use gb_516_hydropower_gate_d.Repository.Directives
use gb_516_hydropower_gate_d.Repository.Security.{append_audit}
use gb_516_hydropower_gate_d.Service.Security.{audit_log, audit}
use gb_516_hydropower_gate_d.Service.GateMove.Fate.{GateIs}
use gb_516_hydropower_gate_d.Service.Confirmation.{
  transition, admit, record_transition, find_outcome, require_executing_directive, settle_gate,
  settle_outcome,
}
use gb_516_hydropower_gate_d.Service.Confirmation.Effects.{
  DirectiveIs, confirmed_completes, failed_aborts,
}
use gb_516_hydropower_gate_d.Witness.Data.{
  platform, context, caller, to_status, database, confirmation_of, succeeds, runs,
}

abbrev before : Db
before = database "moving" "executing" "pending"

abbrev confirm : Exec ExecutionConfirmation
confirm = transition platform context 1 (to_status "confirmed" 1) (caller "boris" "reviewer")

abbrev fail : Exec ExecutionConfirmation
fail = transition platform context 1 (to_status "failed" 1) (caller "boris" "reviewer")

confirm-succeeds : succeeds (confirm before).0 ≡ true
unfolding transition admit record_transition find_outcome require_executing_directive settle_gate
    settle_outcome within_transaction transaction ◌>>=◌ update overwrite append_audit audit
    audit_log trim_space to_upper memory can_transition Store.get Store.get_by_code Directives.get
    Directives.get_by_code
confirm-succeeds = refl

fail-succeeds : succeeds (fail before).0 ≡ true
unfolding transition admit record_transition find_outcome require_executing_directive settle_gate
    settle_outcome within_transaction transaction ◌>>=◌ update overwrite append_audit audit
    audit_log trim_space to_upper memory can_transition Store.get Store.get_by_code Directives.get
    Directives.get_by_code
fail-succeeds = refl

confirmed_completes_example :
    (d : OperationDirective) × (gate : GateUnit) × (Directives.get_by_code platform "OD-1" before
      ≡ ok d)
    × (d.status ≡ "executing")
    × (Store.get_by_code platform gates d.related_code before ≡ ok gate)
    × DirectiveIs d.id "completed" (confirm before).1
    × GateIs platform d.related_code d.gate_state (confirm before).1
unfolding memory trim_space Store.get
confirmed_completes_example =
    confirmed_completes platform context 1 (to_status "confirmed" 1) (caller "boris" "reviewer")
      {c = confirmation_of "pending" 1} {db = before} ((omega arith, tt), (omega arith, tt)) refl
      refl refl (runs confirm before confirm-succeeds)

failed_aborts_example :
    (d : OperationDirective) × (gate : GateUnit) × (Directives.get_by_code platform "OD-1" before
      ≡ ok d)
    × (d.status ≡ "executing")
    × (Store.get_by_code platform gates d.related_code before ≡ ok gate)
    × DirectiveIs d.id "aborted" (fail before).1
    × GateIs platform d.related_code "locked" (fail before).1
unfolding memory trim_space Store.get
failed_aborts_example =
    failed_aborts platform context 1 (to_status "failed" 1) (caller "boris" "reviewer")
      {c = confirmation_of "pending" 1} {db = before} ((omega arith, tt), (omega arith, tt)) refl
      refl refl (runs fail before fail-succeeds)
