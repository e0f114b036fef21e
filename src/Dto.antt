-- ===== src/Dto.antt =====
-- backend/internal/dto: the bodies of requests, after gin has bound and checked them.
use gb_516_hydropower_gate_d.Prelude.{ℕ, String, ℤ, pos, ◌*◌, pos_part, ltb_ℤ, if◌then◌else◌}

-- A Go int is an integer. What ShouldBindQuery leaves of a query that it cannot read is a query too.
pub record PageQuery : Type 0 where
  pub page : ℤ
  pub page_size : ℤ
  pub search : String
  pub status : String

pub record AuditSummaryQuery : Type 0 where
  pub window_hours : ℤ

-- Window: the hours that it comes to, and their nanoseconds
abbrev pub hours_of : AuditSummaryQuery → ℕ
hours_of q =
    let hours = if ltb_ℤ q.window_hours (pos 1) then pos 24 else q.window_hours in
    pos_part (if ltb_ℤ (pos 2160) hours then pos 2160 else hours)

abbrev pub window : AuditSummaryQuery → ℤ
window q = pos (hours_of q * 3600000000000)

pub record EntityHistoryQuery : Type 0 where
  pub limit : ℤ

abbrev pub normalized_limit : EntityHistoryQuery → ℤ
normalized_limit q =
    if ltb_ℤ q.limit (pos 1) then pos 20 else if ltb_ℤ (pos 100) q.limit then pos 100 else q.limit

pub record TransitionRequest : Type 0 where
  pub status : String
  pub expected_version : ℕ
  pub reason : String

pub record CreateReservoir : Type 0 where
  pub code : String
  pub name : String
  pub description : String
  pub facility : String
  pub owner : String
  pub category : String
  pub risk_level : String
  pub metric_value : ℕ
  pub metric_unit : String
  pub effective_at : ℕ
  pub evidence : String
  pub related_code : String

pub record UpdateReservoir : Type 0 where
  pub expected_version : ℕ
  pub name : String
  pub description : String
  pub facility : String
  pub owner : String
  pub category : String
  pub risk_level : String
  pub metric_value : ℕ
  pub metric_unit : String
  pub effective_at : ℕ
  pub evidence : String
  pub related_code : String

pub record CreateGateUnit : Type 0 where
  pub code : String
  pub name : String
  pub description : String
  pub facility : String
  pub owner : String
  pub category : String
  pub risk_level : String
  pub metric_value : ℕ
  pub metric_unit : String
  pub effective_at : ℕ
  pub evidence : String
  pub related_code : String

pub record UpdateGateUnit : Type 0 where
  pub expected_version : ℕ
  pub name : String
  pub description : String
  pub facility : String
  pub owner : String
  pub category : String
  pub risk_level : String
  pub metric_value : ℕ
  pub metric_unit : String
  pub effective_at : ℕ
  pub evidence : String
  pub related_code : String

pub record CreateOperationDirective : Type 0 where
  pub code : String
  pub name : String
  pub description : String
  pub facility : String
  pub owner : String
  pub category : String
  pub risk_level : String
  pub metric_value : ℕ
  pub metric_unit : String
  pub effective_at : ℕ
  pub evidence : String
  pub related_code : String
  pub gate_state : String

pub record UpdateOperationDirective : Type 0 where
  pub expected_version : ℕ
  pub name : String
  pub description : String
  pub facility : String
  pub owner : String
  pub category : String
  pub risk_level : String
  pub metric_value : ℕ
  pub metric_unit : String
  pub effective_at : ℕ
  pub evidence : String
  pub related_code : String
  pub gate_state : String

pub record CreateExecutionConfirmation : Type 0 where
  pub code : String
  pub name : String
  pub description : String
  pub facility : String
  pub owner : String
  pub category : String
  pub risk_level : String
  pub metric_value : ℕ
  pub metric_unit : String
  pub effective_at : ℕ
  pub evidence : String
  pub related_code : String

pub record UpdateExecutionConfirmation : Type 0 where
  pub expected_version : ℕ
  pub name : String
  pub description : String
  pub facility : String
  pub owner : String
  pub category : String
  pub risk_level : String
  pub metric_value : ℕ
  pub metric_unit : String
  pub effective_at : ℕ
  pub evidence : String
  pub related_code : String
