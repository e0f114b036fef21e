-- ===== src/Repository/Directives.antt =====
-- backend/internal/repository/operation_directive.go and execution_confirmation.go: what these
-- repositories add to Store[T].
pub mod Keeps
pub mod Laws
use gb_516_hydropower_gate_d.Prelude.{ℕ, String, Option, none, some, List, ◌==◌, nat_eq, string_eq}
use gb_516_hydropower_gate_d.Failure.{Result, ok, err}
use gb_516_hydropower_gate_d.Model.{
  OperationDirective, DirectiveApproval, ExecutionConfirmation, AuditLog,
}
use gb_516_hydropower_gate_d.Orm.{Answer, answered, failed, from_answer}
use gb_516_hydropower_gate_d.Repository.Database.{Platform, Db, Context, Exec, ◌>>◌, transaction}
use gb_516_hydropower_gate_d.Repository.Tables.{schema, directives, confirmations, approvals}
use gb_516_hydropower_gate_d.Repository.Store as Store
use gb_516_hydropower_gate_d.Repository.Security.{append_audit}

abbrev pub approval_stored : Answer (DirectiveApproval × List DirectiveApproval) → Exec (Unit {0})
approval_stored (answered (row, rows)) db = (ok tt, record db { approvals = rows })
approval_stored (failed n) db = (from_answer (failed n), db)

abbrev pub with_approvals :
    OperationDirective → Answer (List DirectiveApproval) → Result OperationDirective
with_approvals item (answered xs) = ok (record item { approvals = xs })
with_approvals item (failed n) = from_answer (failed n)

module _ (p : Platform) where
  -- Preload("Approvals")
  abbrev pub preload : Result OperationDirective → Db → Result OperationDirective
  preload (ok item) db = with_approvals item (
      p.gorm.find_all DirectiveApproval approvals (λ row. row.directive_id == item.id) db.approvals)
  preload (err e) db = err e

  -- operationDirectiveRepository.Get
  unfoldable pub get : ℕ → Db → Result OperationDirective
  get id db = preload (Store.get p directives id db) db

  abbrev pub reload : Result OperationDirective → Db → Result OperationDirective
  unfolding get
  reload (ok item) db = get item.id db
  reload (err e) db = err e

  -- operationDirectiveRepository.GetByCode
  unfoldable pub get_by_code : String → Db → Result OperationDirective
  get_by_code code db = reload (Store.get_by_code p directives code db) db

  create_approval : Context → ℕ → Option DirectiveApproval → Exec (Unit {0})
  create_approval ctx id none db = (ok tt, db)
  create_approval ctx id (some approval) db =
      approval_stored
        (p.gorm.create DirectiveApproval approvals ctx.now (record approval { directive_id = id })
          db.approvals)
        db

  unfoldable pub transition_with_approval :
      Context → ℕ → ℕ → OperationDirective → Option DirectiveApproval → AuditLog → Exec (Unit {0})
  unfolding create_approval
  transition_with_approval ctx id expected item approval audit = transaction p do
    Store.update p directives id expected item
    create_approval ctx id approval
    append_audit p ctx audit

  unfoldable pub count_by_directive_code : String → Db → Result ℕ
  count_by_directive_code code db = from_answer (
      p.gorm.count ExecutionConfirmation (schema confirmations)
        (λ row. row.related_code == Store.normal_code p code) db.confirmations)
