-- ===== src/Witness/Creation.antt =====
-- The theorem on created confirmations at a concrete database.
use gb_516_hydropower_gate_d.Prelude.{◌≡◌, refl, true, ◌++◌, [], ◌∷◌, ◌==◌, string_eq, count_if}
use gb_516_hydropower_gate_d.Failure.{ok}
use gb_516_hydropower_gate_d.Text.{trim_space, to_upper}
use gb_516_hydropower_gate_d.Orm.{scoped}
use gb_516_hydropower_gate_d.Orm.Memory.{memory}
use gb_516_hydropower_gate_d.Model.{OperationDirective, ExecutionConfirmation}
use gb_516_hydropower_gate_d.Dto.{CreateExecutionConfirmation}
use gb_516_hydropower_gate_d.Repository.{
  Db, Exec, ◌>>=◌, transaction, within_transaction, schema, confirmations,
}
use gb_516_hydropower_gate_d.Repository.Store
use gb_516_hydropower_gate_d.Repository.Store.{normal_code}
use gb_516_hydropower_gate_d.Repository.Directives
use gb_516_hydropower_gate_d.Repository.Security.{append_audit}
use gb_516_hydropower_gate_d.Service.Common.{validate_business_fields}
use gb_516_hydropower_gate_d.Service.Security.{audit_log, audit}
use gb_516_hydropower_gate_d.Service.Confirmation.{create, require_executing_directive}
use gb_516_hydropower_gate_d.Service.Confirmation.Uniqueness.{create_unique}
use gb_516_hydropower_gate_d.Witness.Data.{
  platform, context, caller, database, succeeds, value, runs,
}

abbrev input : CreateExecutionConfirmation
input = record {
  code = "ec-2";
  name = "North gate opened";
  facility = "North dam";
  owner = "hydro";
  category = "opening";
  risk_level = "low";
  metric_value = 0;
  metric_unit = "m";
  effective_at = 1;
  evidence = "";
  related_code = "od-1";
  description = "";
}

abbrev before : Db
before = record (database "moving" "executing" "pending") { confirmations = [] }

abbrev confirm : Exec ExecutionConfirmation
confirm = create platform context input (caller "carl" "operator")

confirm-succeeds : succeeds (confirm before).0 ≡ true
unfolding create validate_business_fields require_executing_directive within_transaction transaction
    ◌>>=◌ append_audit audit audit_log trim_space to_upper memory Store.create Store.get
    Store.get_by_code Directives.get Directives.get_by_code Directives.count_by_directive_code
confirm-succeeds = refl

abbrev item : ExecutionConfirmation
item = value (confirm before).0 confirm-succeeds

create_unique_example :
    (d : OperationDirective) × (Directives.get_by_code platform "od-1" before ≡ ok d)
    × (d.status ≡ "executing")
    × (count_if
          (scoped
            (schema confirmations)
            (λ (row : ExecutionConfirmation). row.related_code == normal_code platform d.code))
          before.confirmations
        ≡ 0)
    × (item.related_code ≡ d.code)
    × (item.status ≡ "pending")
    × (item.version ≡ 1)
    × ((confirm before).1.confirmations ≡ before.confirmations ++ item ∷ [])
create_unique_example =
    create_unique platform context input (caller "carl" "operator")
      (runs confirm before confirm-succeeds)
