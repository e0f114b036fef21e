-- ===== src/Service/Confirmation/Defs.antt =====
-- The operations on execution confirmations.
use gb_516_hydropower_gate_d.Prelude.{
  ℕ, String, ◌&&◌, not, Option, none, some, ltb, ◌==◌, ◌!=◌, string_eq, if◌then◌else◌,
}
use gb_516_hydropower_gate_d.Text.{trim_space, to_upper, equal_fold}
use gb_516_hydropower_gate_d.Failure.{invalid_transition, invalid_input, immutable_state}
use gb_516_hydropower_gate_d.Constants.{
  can_transition, gate_unit_transitions, execution_confirmation_transitions,
}
use gb_516_hydropower_gate_d.Model.{
  GateUnit, OperationDirective, ExecutionConfirmation, execution_confirmation_initial_status,
}
use gb_516_hydropower_gate_d.Dto.{
  TransitionRequest, CreateExecutionConfirmation, UpdateExecutionConfirmation,
}
use gb_516_hydropower_gate_d.Repository.{
  Platform, Context, Exec, ◌>>=◌, ◌>>◌, pure, ask, check, within_transaction, gates, directives,
  confirmations,
}
use gb_516_hydropower_gate_d.Repository.Store
use gb_516_hydropower_gate_d.Repository.Directives
use gb_516_hydropower_gate_d.Service.Common.{
  Caller, next_version, previous_version, validate_business_fields,
}
use gb_516_hydropower_gate_d.Service.Security.{audit}

abbrev pub new_confirmation :
    Platform → CreateExecutionConfirmation → OperationDirective → ExecutionConfirmation
new_confirmation p input directive = record {
  base = record {
    id = 0;
    code = to_upper p.unicode (trim_space input.code);
    name = trim_space input.name;
    status = execution_confirmation_initial_status;
    version = 1;
    description = trim_space input.description;
    created_at = 0;
    updated_at = 0;
    deleted_at = none;
  };
  facility = directive.facility;
  owner = trim_space input.owner;
  category = directive.category;
  risk_level = directive.risk_level;
  metric_value = input.metric_value;
  metric_unit = trim_space input.metric_unit;
  effective_at = input.effective_at;
  evidence = trim_space input.evidence;
  related_code = directive.code;
  confirmed_by = "";
  confirmed_at = none;
}

abbrev pub edited :
    Context
    → UpdateExecutionConfirmation
    → OperationDirective
    → ExecutionConfirmation
    → ExecutionConfirmation
edited ctx input directive current = record current {
  base = record current.base {
    name = trim_space input.name;
    description = trim_space input.description;
    version = next_version input.expected_version;
    updated_at = ctx.now;
  };
  facility = directive.facility;
  owner = trim_space input.owner;
  category = directive.category;
  risk_level = directive.risk_level;
  metric_value = input.metric_value;
  metric_unit = trim_space input.metric_unit;
  effective_at = input.effective_at;
  evidence = trim_space input.evidence;
  related_code = directive.code;
}

abbrev pub advanced :
    Context → TransitionRequest → Caller → String → ExecutionConfirmation → ExecutionConfirmation
advanced ctx input who target current = record current {
  base = record current.base {
    status = target;
    version = next_version input.expected_version;
    updated_at = ctx.now;
  };
  confirmed_by = if target == "confirmed" then who.actor else current.confirmed_by;
  confirmed_at = if target == "confirmed" then some ctx.now else current.confirmed_at;
}

-- `directive`, `gate`, `directiveTarget` and `gateTarget`; without them `directiveTarget` is "".
pub record Outcome : Type 0 where
  pub directive : OperationDirective
  pub gate : GateUnit
  pub directive_target : String
  pub gate_target : String

abbrev pub outcome_of : String → OperationDirective → GateUnit → Outcome
outcome_of target directive gate = record {
  directive = directive;
  gate = gate;
  directive_target = if target == "confirmed" then "completed" else "aborted";
  gate_target = if target == "confirmed" then directive.gate_state else "locked";
}

module _ (p : Platform) where
  unfoldable pub require_executing_directive : String → Exec OperationDirective
  require_executing_directive code = do
    directive ← ask (Directives.get_by_code p code)
    check (not (directive.status != "executing")) invalid_input
    pure directive

  -- The lines from `var directive model.OperationDirective` on.
  unfoldable pub find_outcome : ExecutionConfirmation → String → Exec (Option Outcome)
  find_outcome current target =
      if current.status == execution_confirmation_initial_status
      then (do
        directive ← require_executing_directive current.related_code
        gate ← ask (Store.get_by_code p gates directive.related_code)
        let outcome = outcome_of target directive gate
        check
            (not (
              gate.status != outcome.gate_target
              && not (can_transition gate_unit_transitions gate.status outcome.gate_target)))
            invalid_transition
        pure (some outcome))
      else pure none

module _ (p : Platform) (ctx : Context) where
  -- The gate at the end of the transaction.
  unfoldable pub settle_gate : TransitionRequest → Caller → Outcome → Exec (Unit {0})
  settle_gate input who outcome =
      let gate = outcome.gate in
      if gate.status == outcome.gate_target then pure tt else do
        Store.update p gates gate.id (previous_version (next_version gate.version)) (record gate {
          base = record gate.base {
            status = outcome.gate_target;
            version = next_version gate.version;
            updated_at = ctx.now;
          };
        })
        audit p ctx who "execution_outcome" "GateUnit" gate.id gate.status outcome.gate_target
            input.reason

  -- The rest of the transaction of `Transition`: the directive, then the gate.
  unfoldable pub settle_outcome : TransitionRequest → Caller → Option Outcome → Exec (Unit {0})
  settle_outcome input who none = pure tt
  settle_outcome input who (some outcome) = do
    let directive = outcome.directive
    Store.update p directives directive.id (previous_version (next_version directive.version))
        (record directive {
          base = record directive.base {
            status = outcome.directive_target;
            version = next_version directive.version;
            updated_at = ctx.now;
          };
        })
    audit p ctx who "execution_outcome" "OperationDirective" directive.id directive.status
        outcome.directive_target input.reason
    settle_gate input who outcome

  unfoldable pub create : CreateExecutionConfirmation → Caller → Exec ExecutionConfirmation
  create input who = do
    ask (λ db. validate_business_fields input.code input.name input.facility input.owner)
    directive ← require_executing_directive p input.related_code
    count ← ask (Directives.count_by_directive_code p directive.code)
    check (not (ltb 0 count)) invalid_input
    within_transaction p ctx λ tx. do
      item ← Store.create p confirmations tx (new_confirmation p input directive)
      audit p tx who "create" "ExecutionConfirmation" item.id "" item.status "created 执行确认"
      pure item

  unfoldable pub update : ℕ → UpdateExecutionConfirmation → Caller → Exec ExecutionConfirmation
  update id input who = do
    current ← ask (Store.get p confirmations id)
    ask (λ db. validate_business_fields current.code input.name input.facility input.owner)
    check (not (current.status != execution_confirmation_initial_status)) immutable_state
    check (equal_fold p.unicode (trim_space input.related_code) current.related_code) invalid_input
    directive ← require_executing_directive p current.related_code
    within_transaction p ctx λ tx. do
      Store.update p confirmations id input.expected_version (edited ctx input directive current)
      audit p tx who "update" "ExecutionConfirmation" id current.status current.status
          "updated business fields"
    ask (Store.get p confirmations id)

  -- The checks of `Transition` before its transaction.
  unfoldable pub admit : ℕ → TransitionRequest → Exec (ExecutionConfirmation × Option Outcome)
  admit id input = do
    current ← ask (Store.get p confirmations id)
    let target = trim_space input.status
    check (can_transition execution_confirmation_transitions current.status target)
        invalid_transition
    outcome ← find_outcome p current target
    pure (current, outcome)

  -- The transaction of `Transition`.
  unfoldable pub record_transition :
      ℕ → TransitionRequest → Caller → ExecutionConfirmation → Option Outcome → Exec (Unit {0})
  record_transition id input who current outcome =
      let target = trim_space input.status in
      within_transaction p ctx λ tx. do
        Store.update p confirmations id input.expected_version
            (advanced ctx input who target current)
        audit p tx who "transition" "ExecutionConfirmation" id current.status target input.reason
        settle_outcome input who outcome

  unfoldable pub transition : ℕ → TransitionRequest → Caller → Exec ExecutionConfirmation
  transition id input who = do
    (current, outcome) ← admit id input
    record_transition id input who current outcome
    ask (Store.get p confirmations id)

  unfoldable pub delete : ℕ → Caller → Exec (Unit {0})
  delete id who = do
    current ← ask (Store.get p confirmations id)
    check (not (current.status != execution_confirmation_initial_status)) immutable_state
    within_transaction p ctx λ tx. do
      Store.delete p confirmations tx id
      audit p tx who "delete" "ExecutionConfirmation" id current.status "deleted"
          "soft deleted 执行确认"
