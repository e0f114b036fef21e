-- ===== src/Service/Directive/Written.antt =====
-- What a transition of a directive writes, field by field: the directive, the approval that goes with
-- the step, and the audit record.
use gb_516_hydropower_gate_d.Prelude.{
  if◌then◌else◌, ℕ, ◌+◌, ◌%◌, ◌^◌, ◌≡◌, ◌≢◌, refl, ◌⊎◌, inl, inr, String, false, ◌==◌, nat_eq,
  string_eq, Option, some, List, [], ◌∷◌, arith, eq_iff, Bool-cases,
}
use gb_516_hydropower_gate_d.Text.{trim_space}
use gb_516_hydropower_gate_d.Model.{OperationDirective, DirectiveApproval, AuditLog}
use gb_516_hydropower_gate_d.Dto.{TransitionRequest}
use gb_516_hydropower_gate_d.Repository.{Context, approvals, audits}
use gb_516_hydropower_gate_d.Repository.Directives.Laws.{IsFiled}
use gb_516_hydropower_gate_d.Service.Common.{Caller}
use gb_516_hydropower_gate_d.Service.Directive.Defs.{
  advanced, approval_at, approval_of, transition_log,
}

-- A name and a time are those of the caller at one status, and as they were at any other.
abbrev pub IsSigned :
    Context → Caller → String → String → (by by' : String) → (at at' : Option ℕ) → Type 0
IsSigned ctx who status target by by' at at' =
    (target ≡ status) × (by' ≡ who.actor) × (at' ≡ some ctx.now)
    ⊎ (target ≢ status) × (by' ≡ by) × (at' ≡ at)

-- The directive after the step: its status, its next version and its time, the submitter and the
-- approver, and every other field as it was.
pub record IsAdvanced (ctx : Context) (input : TransitionRequest) (who : Caller)
    (d written : OperationDirective) : Type 0 where
  pub status : written.status ≡ trim_space input.status
  pub version : written.version ≡ (input.expected_version + 1) % 2 ^ 64
  pub updated : written.updated_at ≡ ctx.now
  pub submitted :
      IsSigned ctx who "pending"
        (trim_space input.status)
        d.submitted_by
        written.submitted_by
        d.submitted_at
        written.submitted_at
  pub approved :
      IsSigned ctx who "approved"
        (trim_space input.status)
        d.approved_by
        written.approved_by
        d.approved_at
        written.approved_at
  pub others :
      record written {
        base = record written.base {
          status = d.status;
          version = d.version;
          updated_at = d.updated_at;
        };
        submitted_by = d.submitted_by;
        submitted_at = d.submitted_at;
        approved_by = d.approved_by;
        approved_at = d.approved_at;
      }
      ≡ d

-- The row of the approvals that records a stage of a directive.
pub record IsSignature (ctx : Context) (input : TransitionRequest) (who : Caller) (id : ℕ)
    (stage from : String) (row : DirectiveApproval) : Type 0 where
  pub directive : row.directive_id ≡ id
  pub stage_of : row.stage ≡ stage
  pub actor : row.actor ≡ who.actor
  pub role : row.role ≡ who.role
  pub request : row.request_id ≡ who.request_id
  pub reason : row.reason ≡ trim_space input.reason
  pub step : (row.from_state ≡ from) × (row.to_state ≡ trim_space input.status)
  pub created : row.created_at ≡ ctx.now

-- One row for a submission, one for an approval, and none for any other step.
abbrev pub IsSignedOff :
    Context → TransitionRequest → Caller → ℕ → String → List DirectiveApproval → Type 0
IsSignedOff ctx input who id from filed =
    ((trim_space input.status ≡ "pending")
      × ((row : DirectiveApproval) × (filed ≡ row ∷ [])
          × IsSignature ctx input who id "submitted" from row))
    ⊎ ((trim_space input.status ≡ "approved")
        × ((row : DirectiveApproval) × (filed ≡ row ∷ [])
            × IsSignature ctx input who id "approved" from row))
    ⊎ ((trim_space input.status ≢ "pending")
        × (trim_space input.status ≢ "approved")
        × (filed ≡ []))

-- The audit record of the step.
pub record IsLogged (ctx : Context) (input : TransitionRequest) (who : Caller) (id : ℕ)
    (from : String) (row : AuditLog) : Type 0 where
  pub actor : row.actor ≡ who.actor
  pub request : row.request_id ≡ who.request_id
  pub action : row.action ≡ "transition"
  pub entity : (row.entity_type ≡ "OperationDirective") × (row.entity_id ≡ id)
  pub step : (row.before_state ≡ from) × (row.after_state ≡ trim_space input.status)
  pub detail : row.detail ≡ input.reason
  pub created : row.created_at ≡ ctx.now

same_now : (now : ℕ) → (if now == 0 then now else now) ≡ now
same_now now = ground arith

differs : (a b : String) → (a == b) ≡ false → a ≢ b
differs a b h e = ground (arith, eq_iff a b)

IsSigned-cases :
    (ctx : Context) (who : Caller) (status target by : String) (at : Option ℕ)
    → IsSigned ctx who status target by
        (if target == status then who.actor else by)
        at
        (if target == status then some ctx.now else at)
IsSigned-cases ctx who status target by at = elim (Bool-cases (target == status)) [
  | inl here ↦ inl ((eq_iff target status).0 here, rw here refl, rw here refl)
  | inr there ↦ inr (differs target status there, rw there refl, rw there refl)
]

module _ (ctx : Context) (input : TransitionRequest) (who : Caller) where
  pub advanced-IsAdvanced :
      (d : OperationDirective)
      → IsAdvanced ctx input who d (advanced ctx input who (trim_space input.status) d)
  advanced-IsAdvanced d = record {
    status = refl;
    version = refl;
    updated = refl;
    submitted = IsSigned-cases ctx who "pending" (trim_space input.status) _ _;
    approved = IsSigned-cases ctx who "approved" (trim_space input.status) _ _;
    others = refl;
  }

  pub transition_log-IsLogged :
      (id key : ℕ) (from : String)
      → IsLogged ctx input who id from (
          audits.stamp key ctx.now (transition_log ctx id input who from (trim_space input.status)))
  transition_log-IsLogged id key from = record {
    actor = refl;
    request = refl;
    action = refl;
    entity = (refl, refl);
    step = (refl, refl);
    detail = refl;
    created = same_now ctx.now;
  }

  signed_approval :
      (id key : ℕ) (stage from : String)
      → IsSignature ctx input who id stage from (
          approvals.stamp key ctx.now
            (record (approval_at ctx input who stage from (trim_space input.status)) {
              directive_id = id;
            }))
  signed_approval id key stage from = record {
    directive = refl;
    stage_of = refl;
    actor = refl;
    role = refl;
    request = refl;
    reason = refl;
    step = (refl, refl);
    created = same_now ctx.now;
  }

  pub filed-IsSignedOff :
      (id : ℕ) (from : String) (filed : List DirectiveApproval)
      → IsFiled ctx.now id (approval_of ctx input who from (trim_space input.status)) filed
      → IsSignedOff ctx input who id from filed
  filed-IsSignedOff id from filed h = elim (Bool-cases (trim_space input.status == "approved")) [
    | inl approved ↦
        (let (k, e) = rw approved at h in
          inr (
            inl (
              (eq_iff (trim_space input.status) "approved").0 approved,
              (_, e, signed_approval id k "approved" from),
            )))
    | inr unapproved ↦ elim (Bool-cases (trim_space input.status == "pending")) [
      | inl pending ↦
          (let (k, e) = rw (unapproved, pending) at h in
            inl (
              (eq_iff (trim_space input.status) "pending").0 pending,
              (_, e, signed_approval id k "submitted" from),
            ))
      | inr other ↦
          inr (inr (differs _ _ other, differs _ _ unapproved, rw (unapproved, other) at h))
    ]
  ]
