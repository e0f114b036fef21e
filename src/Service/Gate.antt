-- ===== src/Service/Gate.antt =====
-- backend/internal/service/gate_unit.go
use gb_516_hydropower_gate_d.Prelude.{ℕ, String, none}
use gb_516_hydropower_gate_d.Text.{trim_space, to_upper, equal_fold}
use gb_516_hydropower_gate_d.Failure.{invalid_transition, invalid_input}
use gb_516_hydropower_gate_d.Constants.{can_transition, gate_unit_transitions}
use gb_516_hydropower_gate_d.Model.{GateUnit, AuditLog, gate_unit_initial_status}
use gb_516_hydropower_gate_d.Dto.{TransitionRequest, CreateGateUnit, UpdateGateUnit}
use gb_516_hydropower_gate_d.Repository.{
  Platform, Context, Exec, ◌>>=◌, ◌>>◌, pure, ask, check, within_transaction, reservoirs, gates,
}
use gb_516_hydropower_gate_d.Repository.Store
use gb_516_hydropower_gate_d.Service.Common.{Caller, next_version, validate_business_fields}
use gb_516_hydropower_gate_d.Service.Security.{audit}

abbrev pub new_gate_unit : Platform → CreateGateUnit → GateUnit
new_gate_unit p input = record {
  base = record {
    id = 0;
    code = to_upper p.unicode (trim_space input.code);
    name = trim_space input.name;
    status = gate_unit_initial_status;
    version = 1;
    description = trim_space input.description;
    created_at = 0;
    updated_at = 0;
    deleted_at = none;
  };
  facility = trim_space input.facility;
  owner = trim_space input.owner;
  category = trim_space input.category;
  risk_level = input.risk_level;
  metric_value = input.metric_value;
  metric_unit = trim_space input.metric_unit;
  effective_at = input.effective_at;
  evidence = trim_space input.evidence;
  related_code = to_upper p.unicode (trim_space input.related_code);
}

abbrev pub edited : Platform → Context → UpdateGateUnit → String → GateUnit → GateUnit
edited p ctx input related_code current = record current {
  base = record current.base {
    name = trim_space input.name;
    description = trim_space input.description;
    version = next_version input.expected_version;
    updated_at = ctx.now;
  };
  facility = trim_space input.facility;
  owner = trim_space input.owner;
  category = trim_space input.category;
  risk_level = input.risk_level;
  metric_value = input.metric_value;
  metric_unit = trim_space input.metric_unit;
  effective_at = input.effective_at;
  evidence = trim_space input.evidence;
  related_code = related_code;
}

abbrev pub moved : Context → TransitionRequest → String → GateUnit → GateUnit
moved ctx input target current = record current {
  base = record current.base {
    status = target;
    version = next_version input.expected_version;
    updated_at = ctx.now;
  };
}

abbrev pub transition_log : Context → ℕ → TransitionRequest → String → String → Caller → AuditLog
transition_log ctx id input before target who = record {
  id = 0;
  request_id = who.request_id;
  actor = who.actor;
  action = "transition";
  entity_type = "GateUnit";
  entity_id = id;
  before_state = before;
  after_state = target;
  detail = input.reason;
  created_at = ctx.now;
}

module _ (p : Platform) (ctx : Context) where
  unfoldable pub create : CreateGateUnit → Caller → Exec GateUnit
  create input who = do
    ask (λ db. validate_business_fields input.code input.name input.facility input.owner)
    reservoir ← ask (Store.get_by_code p reservoirs input.related_code)
    check (equal_fold p.unicode (trim_space input.facility) reservoir.facility) invalid_input
    within_transaction p ctx λ tx. do
      item ← Store.create p gates tx (new_gate_unit p input)
      audit p tx who "create" "GateUnit" item.id "" item.status "created 闸门"
      pure item

  unfoldable pub update : ℕ → UpdateGateUnit → Caller → Exec GateUnit
  update id input who = do
    current ← ask (Store.get p gates id)
    ask (λ db. validate_business_fields current.code input.name input.facility input.owner)
    check (equal_fold p.unicode (trim_space input.related_code) current.related_code) invalid_input
    reservoir ← ask (Store.get_by_code p reservoirs current.related_code)
    check (equal_fold p.unicode (trim_space input.facility) reservoir.facility) invalid_input
    within_transaction p ctx λ tx. do
      Store.update p gates id input.expected_version (edited p ctx input reservoir.code current)
      audit p tx who "update" "GateUnit" id current.status current.status "updated business fields"
    ask (Store.get p gates id)

  unfoldable pub transition : ℕ → TransitionRequest → Caller → Exec GateUnit
  transition id input who = do
    current ← ask (Store.get p gates id)
    let target = trim_space input.status
    check (can_transition gate_unit_transitions current.status target) invalid_transition
    Store.transition_with_audit p gates ctx id input.expected_version
        (moved ctx input target current) (transition_log ctx id input current.status target who)
    ask (Store.get p gates id)

  unfoldable pub delete : ℕ → Caller → Exec (Unit {0})
  delete id who = do
    current ← ask (Store.get p gates id)
    within_transaction p ctx λ tx. do
      Store.delete p gates tx id
      audit p tx who "delete" "GateUnit" id current.status "deleted" "soft deleted 闸门"
