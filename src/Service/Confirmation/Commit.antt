-- ===== src/Service/Confirmation/Commit.antt =====
-- What a successful `Transition` of a confirmation leaves in the database.
use gb_516_hydropower_gate_d.Prelude.{
  ℕ, ◌≡◌, refl, String, Bool, true, ◌==◌, string_eq, eq_iff, Option, none, some, ◌++◌, [], ◌∷◌, ap,
  sym, ◌∙◌, any, rewrite, Bool-cases, inl, inr, subst,
}
use gb_516_hydropower_gate_d.Text.{trim_space}
use gb_516_hydropower_gate_d.Failure.{ok}
use gb_516_hydropower_gate_d.Model.{OperationDirective, ExecutionConfirmation}
use gb_516_hydropower_gate_d.Dto.{TransitionRequest}
use gb_516_hydropower_gate_d.Orm.{scoped}
use gb_516_hydropower_gate_d.Repository.{
  Platform, Db, Context, schema, directives, confirmations, audits,
}
use gb_516_hydropower_gate_d.Repository.Calls.Runs.{
  Runs, bind-Runs, asks-Runs, pure-Runs, within-Runs,
}
use gb_516_hydropower_gate_d.Repository.Store
use gb_516_hydropower_gate_d.Repository.Store.{is_version, overwrite, update}
use gb_516_hydropower_gate_d.Repository.Store.Laws.{update-Runs}
use gb_516_hydropower_gate_d.Service.Common.{Caller, next_version, previous_version}
use gb_516_hydropower_gate_d.Service.Security.{audit_log}
use gb_516_hydropower_gate_d.Service.Security.Laws.{audit-Runs}
use gb_516_hydropower_gate_d.Service.GateMove.{IsGateMoved, move-Runs}
use gb_516_hydropower_gate_d.Service.Confirmation.Defs.{
  Outcome, advanced, settle_gate, settle_outcome, record_transition, transition,
}
use gb_516_hydropower_gate_d.Service.Confirmation.Admit.{IsAdmitted, admit-Runs}

pub data IsGateSettled (ctx : Context) (who : Caller) (reason : String) (o : Outcome) (db db' : Db)
    : Type 0 where
  in_place : o.gate.status ≡ o.gate_target → db' ≡ db → IsGateSettled ctx who reason o db db'
  to_target :
      IsGateMoved ctx who "execution_outcome" reason o.gate o.gate_target db db'
      → IsGateSettled ctx who reason o db db'

-- The condition under which the directive is rewritten.
abbrev pub directive_version : OperationDirective → OperationDirective → Bool
directive_version d =
    scoped (schema directives)
      (is_version directives d.id (previous_version (next_version d.version)))

-- The directive as it is rewritten.
abbrev pub concluded : ℕ → String → OperationDirective → OperationDirective
concluded now status d = record d {
  base = record d.base { status = status; version = next_version d.version; updated_at = now };
}

-- The directive ends, with an audit record; then the gate is brought to its state.
pub record IsSettled (ctx : Context) (who : Caller) (reason : String) (o : Outcome) (db db' : Db)
    : Type 0 where
  pub key : ℕ
  pub between : Db
  pub version : any (directive_version o.directive) db.directives ≡ true
  pub ended : between ≡ record db {
    directives =
        rewrite
          (directive_version o.directive)
          (overwrite directives (concluded ctx.now o.directive_target o.directive))
          db.directives;
    audits =
        db.audits
        ++ audits.stamp key ctx.now (
            audit_log ctx who "execution_outcome" "OperationDirective" o.directive.id
              o.directive.status o.directive_target reason)
          ∷ [];
  }
  pub gate : IsGateSettled ctx who reason o between db'

pub data IsOutcome (ctx : Context) (who : Caller) (reason : String) (o : Option Outcome)
    (db db' : Db) : Type 0 where
  no_outcome : o ≡ none → db' ≡ db → IsOutcome ctx who reason o db db'
  outcome :
      (x : Outcome)
      → o ≡ some x
      → IsSettled ctx who reason x db db'
      → IsOutcome ctx who reason o db db'

module _ (p : Platform) (ctx : Context) (input : TransitionRequest) (who : Caller) where
  settle_gate-Runs :
      (o : Outcome) {db db' : Db} {u : Unit {0}}
      → Runs (settle_gate p ctx input who o) db u db'
      → IsGateSettled ctx who input.reason o db db'
  unfolding settle_gate
  settle_gate-Runs o h = elim (Bool-cases (o.gate.status == o.gate_target)) [
    | inl there ↦
        in_place ((eq_iff o.gate.status o.gate_target).0 there) (sym (pure-Runs (rw there at h)).1)
    | inr away ↦
        to_target
          (move-Runs p ctx who "execution_outcome" input.reason o.gate o.gate_target (rw away at h))
  ]

  settle_outcome-Runs :
      (o : Option Outcome) {db db' : Db} {u : Unit {0}}
      → Runs (settle_outcome p ctx input who o) db u db'
      → IsOutcome ctx who input.reason o db db'
  unfolding settle_outcome
  settle_outcome-Runs none h = no_outcome refl (sym (pure-Runs h).1)
  settle_outcome-Runs (some o) {db = db} h =
      let (_, db₁, r₁, h₁) = bind-Runs h in
      let (_, db₂, r₂, r₃) = bind-Runs h₁ in
      let (version, updated) =
        update-Runs p directives o.directive.id _ (concluded ctx.now o.directive_target o.directive)
          r₁ in
      let logged =
        audit-Runs p ctx who "execution_outcome" "OperationDirective" o.directive.id
          o.directive.status o.directive_target input.reason r₂ in
      outcome o refl (record {
        key = logged.key;
        between = db₂;
        version = version;
        ended =
            logged.appended
            ∙ ap
                (λ (x : Db). record x {
                  audits =
                      x.audits
                      ++ audits.stamp logged.key ctx.now (
                          audit_log ctx who "execution_outcome" "OperationDirective" o.directive.id
                            o.directive.status o.directive_target input.reason)
                        ∷ [];
                })
                updated;
        gate = settle_gate-Runs o r₃;
      })

  -- The transaction of `Transition`: the confirmation with its audit record, then the outcome.
  pub record IsCommitted (id : ℕ) (c : ExecutionConfirmation) (o : Option Outcome) (db db' : Db)
      : Type 0 where
    pub key : ℕ
    pub between : Db
    pub version :
        any
          (scoped (schema confirmations) (is_version confirmations id input.expected_version))
          db.confirmations
        ≡ true
    pub recorded : between ≡ record db {
      confirmations =
          rewrite
            (scoped (schema confirmations) (is_version confirmations id input.expected_version))
            (overwrite confirmations (advanced ctx input who (trim_space input.status) c))
            db.confirmations;
      audits =
          db.audits
          ++ audits.stamp key ctx.now (
              audit_log ctx who "transition" "ExecutionConfirmation" id c.status
                (trim_space input.status)
                input.reason)
            ∷ [];
    }
    pub outcome : IsOutcome ctx who input.reason o between db'

  record_transition-Runs :
      (id : ℕ) (c : ExecutionConfirmation) (o : Option Outcome) {db db' : Db} {u : Unit {0}}
      → Runs (record_transition p ctx id input who c o) db u db'
      → IsCommitted id c o db db'
  unfolding record_transition audit_log
  record_transition-Runs id c o {db = db} h =
      let (_, db₁, r₁, h₁) = bind-Runs (within-Runs p ctx _ h) in
      let (_, db₂, r₂, r₃) = bind-Runs h₁ in
      let (version, updated) = update-Runs p confirmations id _ _ r₁ in
      let logged =
        audit-Runs p _ who "transition" "ExecutionConfirmation" id c.status
          (trim_space input.status) input.reason r₂ in
      record {
        key = logged.key;
        between = db₂;
        version = version;
        recorded =
            logged.appended
            ∙ ap
                (λ (x : Db). record x {
                  audits =
                      x.audits
                      ++ audits.stamp logged.key ctx.now (
                          audit_log ctx who "transition" "ExecutionConfirmation" id c.status
                            (trim_space input.status) input.reason)
                        ∷ [];
                })
                updated;
        outcome = settle_outcome-Runs o r₃;
      }

  pub transition-Runs :
      (id : ℕ) {item : ExecutionConfirmation} {db db' : Db}
      → Runs (transition p ctx id input who) db item db'
      → (c : ExecutionConfirmation) × (o : Option Outcome) × IsAdmitted p db id input c o
        × IsCommitted id c o db db'
        × (Store.get p confirmations id db' ≡ ok item)
  unfolding transition
  transition-Runs id {item = item} {db = db} {db' = db'} h =
      let ((c, o), db₁, r₁, h₁) = bind-Runs h in
      let (_, db₂, r₂, h₂) = bind-Runs h₁ in
      let (admitted, same) = admit-Runs p ctx id input r₁ in
      let (answer, same') = asks-Runs _ h₂ in
      (
        c,
        o,
        admitted,
        subst (λ x. IsCommitted id c o x db') (sym same)
            (subst (IsCommitted id c o db₁) same' (record_transition-Runs id c o r₂)),
        subst (λ x. Store.get p confirmations id x ≡ ok item) same' answer,
      )
