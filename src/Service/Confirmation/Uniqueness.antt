-- ===== src/Service/Confirmation/Uniqueness.antt =====
-- What a successful `Create` of a confirmation requires, and what it leaves.
use gb_516_hydropower_gate_d.Prelude.{
  ℕ, ◌≡◌, String, true, not, ◌==◌, string_eq, ltb, ◌++◌, [], ◌∷◌, arith, ap, sym, subst, ◌∙◌,
  count_if,
}
use gb_516_hydropower_gate_d.Failure.{ok}
use gb_516_hydropower_gate_d.Model.{ExecutionConfirmation, OperationDirective}
use gb_516_hydropower_gate_d.Dto.{CreateExecutionConfirmation}
use gb_516_hydropower_gate_d.Orm.{Answer, answered, failed, from_answer, scoped}
use gb_516_hydropower_gate_d.Repository.{Platform, Db, Context, schema, confirmations}
use gb_516_hydropower_gate_d.Repository.Calls.Runs.{
  Runs, bind-Runs, ask-Runs, check-Runs, pure-Runs, within-Runs,
}
use gb_516_hydropower_gate_d.Repository.Store.{normal_code}
use gb_516_hydropower_gate_d.Repository.Store.Laws.{create-Runs}
use gb_516_hydropower_gate_d.Repository.Directives
use gb_516_hydropower_gate_d.Repository.Directives.{count_by_directive_code}
use gb_516_hydropower_gate_d.Service.Common.{Caller}
use gb_516_hydropower_gate_d.Service.Security.Laws.{audit-Runs}
use gb_516_hydropower_gate_d.Service.Confirmation.Defs.{create}
use gb_516_hydropower_gate_d.Service.Confirmation.Admit.{require-IsExecuting-Runs}

answer-eq-ok : (x : Answer ℕ) {n : ℕ} → from_answer x ≡ ok n → x ≡ answered n
answer-eq-ok (answered m) h = ground arith
answer-eq-ok (failed m) h = cc

count_found :
    (p : Platform) (code : String) (db : Db) {n : ℕ}
    → count_by_directive_code p code db ≡ ok n
    → n
      ≡ count_if
          (scoped
            (schema confirmations)
            (λ (row : ExecutionConfirmation). row.related_code == normal_code p code))
          db.confirmations
unfolding count_by_directive_code
count_found p code db {n} h =
    p.gorm.count_counts ExecutionConfirmation (schema confirmations) _ db.confirmations n
      (answer-eq-ok _ h)

not_positive : (n : ℕ) → not (ltb 0 n) ≡ true → n ≡ 0
not_positive n h = ground arith

-- A confirmation is created only for a directive that executes and has no live confirmation; it is
-- appended to the table, for the directive's code, pending and in version one.
pub create_unique :
    (p : Platform) (ctx : Context) (input : CreateExecutionConfirmation) (who : Caller)
    {item : ExecutionConfirmation} {db db' : Db}
    → Runs (create p ctx input who) db item db'
    → (d : OperationDirective) × (Directives.get_by_code p input.related_code db ≡ ok d)
      × (d.status ≡ "executing")
      × (count_if
            (scoped
              (schema confirmations)
              (λ (row : ExecutionConfirmation). row.related_code == normal_code p d.code))
            db.confirmations
          ≡ 0)
      × (item.related_code ≡ d.code)
      × (item.status ≡ "pending")
      × (item.version ≡ 1)
      × (db'.confirmations ≡ db.confirmations ++ item ∷ [])
unfolding create
create_unique p ctx input who {item} {db} {db'} h =
    let (_, valid, h₁) = ask-Runs _ h in
    let (d, db₁, r₁, h₂) = bind-Runs h₁ in
    let (executing, same) = require-IsExecuting-Runs p input.related_code r₁ in
    let (n, counted, h₃) = ask-Runs _ h₂ in
    let (none_yet, h₄) = check-Runs _ _ _ h₃ in
    let (row, db₂, r₂, h₅) = bind-Runs (within-Runs p ctx _ h₄) in
    let (_, db₃, r₃, h₆) = bind-Runs h₅ in
    let (k, fresh, apart, stamped, put) = create-Runs p confirmations _ _ r₂ in
    let logged = audit-Runs p _ who _ _ _ _ _ _ r₃ in
    let (e, same') = pure-Runs h₆ in
    (
      d,
      executing.found,
      executing.status,
      subst
          (λ (x : Db).
            count_if
              (scoped (schema confirmations)
                (λ (row : ExecutionConfirmation). row.related_code == normal_code p d.code))
              x.confirmations
            ≡ 0)
          (sym same) (sym (count_found p d.code db₁ counted) ∙ not_positive n none_yet),
      ap (λ (x : ExecutionConfirmation). x.related_code) (sym e ∙ stamped),
      ap (λ (x : ExecutionConfirmation). x.status) (sym e ∙ stamped),
      ap (λ (x : ExecutionConfirmation). x.version) (sym e ∙ stamped),
      ap (λ (x : Db). x.confirmations) (sym same')
          ∙ ap (λ (x : Db). x.confirmations) logged.appended
          ∙ ap (λ (x : Db). x.confirmations) put
          ∙ ap (λ (x : ExecutionConfirmation). db₁.confirmations ++ x ∷ []) e
          ∙ ap (λ (x : Db). x.confirmations ++ item ∷ []) (sym same),
    )
