-- ===== src/Service/Reservoir.antt =====
-- backend/internal/service/reservoir.go
use gb_516_hydropower_gate_d.Prelude.{ℕ, String, none}
use gb_516_hydropower_gate_d.Text.{trim_space, to_upper}
use gb_516_hydropower_gate_d.Failure.{invalid_transition}
use gb_516_hydropower_gate_d.Constants.{can_transition, reservoir_transitions}
use gb_516_hydropower_gate_d.Model.{Reservoir, AuditLog, reservoir_initial_status}
use gb_516_hydropower_gate_d.Dto.{TransitionRequest, CreateReservoir, UpdateReservoir}
use gb_516_hydropower_gate_d.Repository.{
  Platform, Context, Exec, ◌>>=◌, ◌>>◌, pure, ask, check, within_transaction, reservoirs,
}
use gb_516_hydropower_gate_d.Repository.Store
use gb_516_hydropower_gate_d.Service.Common.{Caller, next_version, validate_business_fields}
use gb_516_hydropower_gate_d.Service.Security.{audit}

abbrev pub new_reservoir : Platform → CreateReservoir → Reservoir
new_reservoir p input = record {
  base = record {
    id = 0;
    code = to_upper p.unicode (trim_space input.code);
    name = trim_space input.name;
    status = reservoir_initial_status;
    version = 1;
    description = trim_space input.description;
    created_at = 0;
    updated_at = 0;
    deleted_at = none;
  };
  facility = trim_space input.facility;
  owner = trim_space input.owner;
  category = trim_space input.category;
  risk_level = input.risk_level;
  metric_value = input.metric_value;
  metric_unit = trim_space input.metric_unit;
  effective_at = input.effective_at;
  evidence = trim_space input.evidence;
  related_code = to_upper p.unicode (trim_space input.related_code);
}

abbrev pub edited : Platform → Context → UpdateReservoir → Reservoir → Reservoir
edited p ctx input current = record current {
  base = record current.base {
    name = trim_space input.name;
    description = trim_space input.description;
    version = next_version input.expected_version;
    updated_at = ctx.now;
  };
  facility = trim_space input.facility;
  owner = trim_space input.owner;
  category = trim_space input.category;
  risk_level = input.risk_level;
  metric_value = input.metric_value;
  metric_unit = trim_space input.metric_unit;
  effective_at = input.effective_at;
  evidence = trim_space input.evidence;
  related_code = to_upper p.unicode (trim_space input.related_code);
}

abbrev pub moved : Context → TransitionRequest → String → Reservoir → Reservoir
moved ctx input target current = record current {
  base = record current.base {
    status = target;
    version = next_version input.expected_version;
    updated_at = ctx.now;
  };
}

abbrev pub transition_log : Context → ℕ → TransitionRequest → String → String → Caller → AuditLog
transition_log ctx id input before target who = record {
  id = 0;
  request_id = who.request_id;
  actor = who.actor;
  action = "transition";
  entity_type = "Reservoir";
  entity_id = id;
  before_state = before;
  after_state = target;
  detail = input.reason;
  created_at = ctx.now;
}

module _ (p : Platform) (ctx : Context) where
  unfoldable pub create : CreateReservoir → Caller → Exec Reservoir
  create input who = do
    ask (λ db. validate_business_fields input.code input.name input.facility input.owner)
    within_transaction p ctx λ tx. do
      item ← Store.create p reservoirs tx (new_reservoir p input)
      audit p tx who "create" "Reservoir" item.id "" item.status "created 库区"
      pure item

  unfoldable pub update : ℕ → UpdateReservoir → Caller → Exec Reservoir
  update id input who = do
    current ← ask (Store.get p reservoirs id)
    ask (λ db. validate_business_fields current.code input.name input.facility input.owner)
    within_transaction p ctx λ tx. do
      Store.update p reservoirs id input.expected_version (edited p ctx input current)
      audit p tx who "update" "Reservoir" id current.status current.status "updated business fields"
    ask (Store.get p reservoirs id)

  unfoldable pub transition : ℕ → TransitionRequest → Caller → Exec Reservoir
  transition id input who = do
    current ← ask (Store.get p reservoirs id)
    let target = trim_space input.status
    check (can_transition reservoir_transitions current.status target) invalid_transition
    Store.transition_with_audit p reservoirs ctx id input.expected_version
        (moved ctx input target current) (transition_log ctx id input current.status target who)
    ask (Store.get p reservoirs id)

  unfoldable pub delete : ℕ → Caller → Exec (Unit {0})
  delete id who = do
    current ← ask (Store.get p reservoirs id)
    within_transaction p ctx λ tx. do
      Store.delete p reservoirs tx id
      audit p tx who "delete" "Reservoir" id current.status "deleted" "soft deleted 库区"
