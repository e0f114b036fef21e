-- ===== src/Service/Directive/Defs.antt =====
-- The operations on directives; a call takes the platform, the context and the caller.
use gb_516_hydropower_gate_d.Prelude.{
  ℕ, String, Bool, false, ◌&&◌, ◌||◌, not, Option, none, some, [], ◌==◌, ◌!=◌, string_eq,
  if◌then◌else◌,
}
use gb_516_hydropower_gate_d.Text.{trim_space, to_upper, equal_fold}
use gb_516_hydropower_gate_d.Failure.{
  invalid_transition, invalid_input, forbidden, two_person_required, immutable_state,
}
use gb_516_hydropower_gate_d.Constants.{
  can_transition, gate_unit_transitions, operation_directive_transitions,
}
use gb_516_hydropower_gate_d.Model.{
  GateUnit, OperationDirective, DirectiveApproval, AuditLog, operation_directive_initial_status,
  role_operator, role_reviewer, role_admin,
}
use gb_516_hydropower_gate_d.Dto.{
  TransitionRequest, CreateOperationDirective, UpdateOperationDirective,
}
use gb_516_hydropower_gate_d.Repository.{
  Platform, Context, Exec, ◌>>=◌, ◌>>◌, pure, ask, check, within_transaction, gates, directives,
}
use gb_516_hydropower_gate_d.Repository.Store
use gb_516_hydropower_gate_d.Repository.Directives
use gb_516_hydropower_gate_d.Service.Common.{
  Caller, next_version, previous_version, validate_business_fields,
}
use gb_516_hydropower_gate_d.Service.Security.{audit}

-- `switch target`
unfoldable pub directive_role_allowed : String → String → Bool
directive_role_allowed target role =
    if target == "pending"
    then role == role_operator || role == role_admin
    else if target == "approved"
    then role == role_reviewer || role == role_admin
    else if target == "executing"
    then role == role_operator || role == role_admin
    else if target == "aborted"
    then role == role_operator || role == role_reviewer || role == role_admin
    else false

abbrev pub new_directive : Platform → CreateOperationDirective → OperationDirective
new_directive p input =
    let gate_state = trim_space input.gate_state in
    record {
      base = record {
        id = 0;
        code = to_upper p.unicode (trim_space input.code);
        name = trim_space input.name;
        status = operation_directive_initial_status;
        version = 1;
        description = trim_space input.description;
        created_at = 0;
        updated_at = 0;
        deleted_at = none;
      };
      facility = trim_space input.facility;
      owner = trim_space input.owner;
      category = trim_space input.category;
      risk_level = input.risk_level;
      metric_value = input.metric_value;
      metric_unit = trim_space input.metric_unit;
      effective_at = input.effective_at;
      evidence = trim_space input.evidence;
      related_code = to_upper p.unicode (trim_space input.related_code);
      gate_state = if gate_state == "" then "closed" else gate_state;
      submitted_by = "";
      submitted_at = none;
      approved_by = "";
      approved_at = none;
      approvals = [];
    }

abbrev pub edited :
    Platform → Context → UpdateOperationDirective → OperationDirective → OperationDirective
edited p ctx input current =
    let gate_state = trim_space input.gate_state in
    record current {
      base = record current.base {
        name = trim_space input.name;
        description = trim_space input.description;
        version = next_version input.expected_version;
        updated_at = ctx.now;
      };
      facility = trim_space input.facility;
      owner = trim_space input.owner;
      category = trim_space input.category;
      risk_level = input.risk_level;
      metric_value = input.metric_value;
      metric_unit = trim_space input.metric_unit;
      effective_at = input.effective_at;
      evidence = trim_space input.evidence;
      related_code = to_upper p.unicode (trim_space input.related_code);
      gate_state = if gate_state != "" then gate_state else current.gate_state;
    }

-- `current` with its new status: the submitter and the approver are recorded on the way.
abbrev pub advanced :
    Context → TransitionRequest → Caller → String → OperationDirective → OperationDirective
advanced ctx input who target current = record current {
  base = record current.base {
    status = target;
    version = next_version input.expected_version;
    updated_at = ctx.now;
  };
  submitted_by = if target == "pending" then who.actor else current.submitted_by;
  submitted_at = if target == "pending" then some ctx.now else current.submitted_at;
  approved_by = if target == "approved" then who.actor else current.approved_by;
  approved_at = if target == "approved" then some ctx.now else current.approved_at;
}

abbrev pub approval_at :
    Context → TransitionRequest → Caller → String → String → String → DirectiveApproval
approval_at ctx input who stage before target = record {
  id = 0;
  directive_id = 0;
  stage = stage;
  actor = who.actor;
  role = who.role;
  request_id = who.request_id;
  reason = trim_space input.reason;
  from_state = before;
  to_state = target;
  created_at = ctx.now;
}

-- The second assignment of `approval` wins.
abbrev pub approval_of :
    Context → TransitionRequest → Caller → String → String → Option DirectiveApproval
approval_of ctx input who before target =
    if target == "approved"
    then some (approval_at ctx input who "approved" before target)
    else if target == "pending"
    then some (approval_at ctx input who "submitted" before target)
    else none

abbrev pub transition_log : Context → ℕ → TransitionRequest → Caller → String → String → AuditLog
transition_log ctx id input who before target = record {
  id = 0;
  request_id = who.request_id;
  actor = who.actor;
  action = "transition";
  entity_type = "OperationDirective";
  entity_id = id;
  before_state = before;
  after_state = target;
  detail = input.reason;
  created_at = ctx.now;
}

-- `gate` and `gateTarget`
pub record Link : Type 0 where
  pub gate : GateUnit
  pub gate_target : String

abbrev pub gate_target_of : OperationDirective → String → GateUnit → String
gate_target_of current target gate =
    if target == "aborted"
    then "locked"
    else if gate.status != current.gate_state
    then "moving"
    else ""

abbrev pub needs_gate : OperationDirective → String → Bool
needs_gate current target =
    target == "executing" || (current.status == "executing" && target == "aborted")

-- The lines from `var gate *model.GateUnit` on.
unfoldable pub link_gate : Platform → OperationDirective → String → Exec (Option Link)
link_gate p current target =
    if needs_gate current target
    then (do
      gate ← ask (Store.get_by_code p gates current.related_code)
      check (not (target == "executing" && gate.status == "locked")) invalid_input
      let gate_target = gate_target_of current target gate
      check
          (not (
            gate_target != ""
            && gate.status != gate_target
            && not (can_transition gate_unit_transitions gate.status gate_target)))
          invalid_transition
      pure (some (record { gate = gate; gate_target = gate_target })))
    else pure none

module _ (p : Platform) (ctx : Context) where
  -- The end of the transaction of `Transition`.
  unfoldable pub move_gate : TransitionRequest → Caller → Option Link → Exec (Unit {0})
  move_gate input who none = pure tt
  move_gate input who (some link) =
      let gate = link.gate in
      if link.gate_target == "" || gate.status == link.gate_target then pure tt else do
        Store.update p gates gate.id (previous_version (next_version gate.version)) (record gate {
          base = record gate.base {
            status = link.gate_target;
            version = next_version gate.version;
            updated_at = ctx.now;
          };
        })
        audit p ctx who "directive_execution" "GateUnit" gate.id gate.status link.gate_target
            input.reason

  unfoldable pub create : CreateOperationDirective → Caller → Exec OperationDirective
  create input who = do
    ask (λ db. validate_business_fields input.code input.name input.facility input.owner)
    gate ← ask (Store.get_by_code p gates input.related_code)
    check
        (not (
          not (equal_fold p.unicode (trim_space input.facility) gate.facility)
          || gate.status == "locked"))
        invalid_input
    within_transaction p ctx λ tx. do
      item ← Store.create p directives tx (new_directive p input)
      audit p tx who "create" "OperationDirective" item.id "" item.status "created 操作指令"
      pure item

  unfoldable pub update : ℕ → UpdateOperationDirective → Caller → Exec OperationDirective
  update id input who = do
    current ← ask (Directives.get p id)
    check (not (current.status != "draft")) immutable_state
    ask (λ db. validate_business_fields current.code input.name input.facility input.owner)
    gate ← ask (Store.get_by_code p gates input.related_code)
    check
        (not (
          not (equal_fold p.unicode (trim_space input.facility) gate.facility)
          || gate.status == "locked"))
        invalid_input
    within_transaction p ctx λ tx. do
      Store.update p directives id input.expected_version (edited p ctx input current)
      audit p tx who "update" "OperationDirective" id current.status current.status
          "updated business fields"
    ask (Directives.get p id)

  -- The checks of `Transition` before its transaction: the directive and its gate.
  unfoldable pub admit : ℕ → TransitionRequest → Caller → Exec (OperationDirective × Option Link)
  admit id input who = do
    current ← ask (Directives.get p id)
    let target = trim_space input.status
    check (can_transition operation_directive_transitions current.status target) invalid_transition
    check (not (target == "completed")) invalid_transition
    check (directive_role_allowed target who.role) forbidden
    link ← link_gate p current target
    check
        (not (
          target == "approved"
          && (current.submitted_by == "" || equal_fold p.unicode current.submitted_by who.actor)))
        two_person_required
    pure (current, link)

  -- The transaction of `Transition`.
  unfoldable pub record_transition :
      ℕ → TransitionRequest → Caller → OperationDirective → Option Link → Exec (Unit {0})
  record_transition id input who current link =
      let target = trim_space input.status in
      within_transaction p ctx λ tx. do
        Directives.transition_with_approval p tx id input.expected_version
            (advanced ctx input who target current)
            (approval_of ctx input who current.status target)
            (transition_log ctx id input who current.status target)
        move_gate input who link

  unfoldable pub transition : ℕ → TransitionRequest → Caller → Exec OperationDirective
  transition id input who = do
    (current, link) ← admit id input who
    record_transition id input who current link
    ask (Directives.get p id)

  unfoldable pub delete : ℕ → Caller → Exec (Unit {0})
  delete id who = do
    current ← ask (Directives.get p id)
    check (not (current.status != "draft")) immutable_state
    within_transaction p ctx λ tx. do
      Store.delete p directives tx id
      audit p tx who "delete" "OperationDirective" id current.status "deleted" "soft deleted 操作指令"
