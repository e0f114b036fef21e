-- ===== src/Model/Aggregates.antt =====
-- backend/internal/model/reservoir.go, gate_unit.go, operation_directive.go and
-- execution_confirmation.go
use gb_516_hydropower_gate_d.Prelude.{ℕ, String, Option, List}
use gb_516_hydropower_gate_d.Model.Base.{BaseModel}

pub record Reservoir : Type 0 where
  pub base : BaseModel
  pub open base use *
  pub facility : String
  pub owner : String
  pub category : String
  pub risk_level : String
  pub metric_value : ℕ
  pub metric_unit : String
  pub effective_at : ℕ
  pub evidence : String
  pub related_code : String

abbrev pub reservoir_initial_status : String
reservoir_initial_status = "normal"

pub record GateUnit : Type 0 where
  pub base : BaseModel
  pub open base use *
  pub facility : String
  pub owner : String
  pub category : String
  pub risk_level : String
  pub metric_value : ℕ
  pub metric_unit : String
  pub effective_at : ℕ
  pub evidence : String
  pub related_code : String

abbrev pub gate_unit_initial_status : String
gate_unit_initial_status = "open"

pub record DirectiveApproval : Type 0 where
  pub id : ℕ
  pub directive_id : ℕ
  pub stage : String
  pub actor : String
  pub role : String
  pub request_id : String
  pub reason : String
  pub from_state : String
  pub to_state : String
  pub created_at : ℕ

-- `approvals` is no column: the repository fills it from the table of approvals.
pub record OperationDirective : Type 0 where
  pub base : BaseModel
  pub open base use *
  pub facility : String
  pub owner : String
  pub category : String
  pub risk_level : String
  pub metric_value : ℕ
  pub metric_unit : String
  pub effective_at : ℕ
  pub evidence : String
  pub related_code : String
  pub gate_state : String
  pub submitted_by : String
  pub submitted_at : Option ℕ
  pub approved_by : String
  pub approved_at : Option ℕ
  pub approvals : List DirectiveApproval

abbrev pub operation_directive_initial_status : String
operation_directive_initial_status = "draft"

pub record ExecutionConfirmation : Type 0 where
  pub base : BaseModel
  pub open base use *
  pub facility : String
  pub owner : String
  pub category : String
  pub risk_level : String
  pub metric_value : ℕ
  pub metric_unit : String
  pub effective_at : ℕ
  pub evidence : String
  pub related_code : String
  pub confirmed_by : String
  pub confirmed_at : Option ℕ

abbrev pub execution_confirmation_initial_status : String
execution_confirmation_initial_status = "pending"
