-- ===== src/System/Preserved.antt =====
-- What it takes for a predicate on the database to be kept by every operation of the services. `Q`
-- is what the operations may assume of the directives that they read, and have to show of those
-- that they write, and `N` what is assumed of the callers.
use gb_516_hydropower_gate_d.Prelude.{
  ℕ, ◌≡◌, ◌⊎◌, String, Bool, true, false, List, [], ◌∷◌, ◌++◌, some, find?, rewrite, any, ◌==◌,
  string_eq,
}
use gb_516_hydropower_gate_d.Text.{equal_fold}
use gb_516_hydropower_gate_d.Constants.{can_transition, operation_directive_transitions}
use gb_516_hydropower_gate_d.Model.{
  Reservoir, GateUnit, OperationDirective, DirectiveApproval, ExecutionConfirmation, AuditLog,
}
use gb_516_hydropower_gate_d.Dto.{
  TransitionRequest, CreateOperationDirective, UpdateOperationDirective,
}
use gb_516_hydropower_gate_d.Orm.{has_key}
use gb_516_hydropower_gate_d.Repository.{Platform, Db, Context, schema, directives}
use gb_516_hydropower_gate_d.Repository.Store.{overwrite}
use gb_516_hydropower_gate_d.Service.Common.{Caller}
use gb_516_hydropower_gate_d.Service.Directive.{new_directive, edited, advanced}

-- A directive whose status and version are set, as the confirmation service writes it.
abbrev pub settled : OperationDirective → String → ℕ → ℕ → OperationDirective
settled d target v now = record d {
  base = record d.base { status = target; version = v; updated_at = now };
}

-- The condition of `Transition` for an approval.
abbrev pub IsSecondPerson : Platform → OperationDirective → Caller → Type 0
IsSecondPerson p d who =
    ((d.submitted_by == "") ≡ false) × (equal_fold p.unicode d.submitted_by who.actor ≡ false)

pub record Preserved (p : Platform) (P : Db → Type 0) (Q : OperationDirective → Type 0)
    (N : Caller → Type 0) : Type 0 where
  pub reservoirs : (db : Db) (xs : List Reservoir) → P db → P (record db { reservoirs = xs })
  pub gates : (db : Db) (xs : List GateUnit) → P db → P (record db { gates = xs })
  pub confirmations :
      (db : Db) (xs : List ExecutionConfirmation) → P db → P (record db { confirmations = xs })
  pub audits : (db : Db) (row : AuditLog) → P db → P (record db { audits = db.audits ++ row ∷ [] })
  pub approvals :
      (db : Db) (row : DirectiveApproval)
      → P db
      → P (record db { approvals = db.approvals ++ row ∷ [] })
  pub read :
      (db : Db) (q : OperationDirective → Bool) (row : OperationDirective)
      (xs : List DirectiveApproval)
      → P db
      → find? q db.directives ≡ some row
      → Q (record row { approvals = xs })
  pub write :
      (db : Db) (q : OperationDirective → Bool) (item : OperationDirective)
      → ((row : OperationDirective) → q row ≡ true → row.id ≡ item.id)
      → Q item
      → P db
      → P (record db { directives = rewrite q (overwrite directives item) db.directives })
  pub insert :
      (db : Db) (k now : ℕ) (input : CreateOperationDirective)
      → any (has_key (schema directives) k) db.directives ≡ false
      → P db
      → P (record db {
        directives = db.directives ++ (schema directives).stamp k now (new_directive p input) ∷ [];
      })
  pub remove :
      (db : Db) (q : OperationDirective → Bool) (now : ℕ)
      → P db
      → P (record db {
        directives = rewrite q ((schema directives).mark_deleted now) db.directives;
      })
  pub edits :
      (ctx : Context) (input : UpdateOperationDirective) (d : OperationDirective)
      → Q d
      → d.status ≡ "draft"
      → Q (edited p ctx input d)
  pub advances :
      (ctx : Context) (input : TransitionRequest) (who : Caller) (target : String)
      (d : OperationDirective)
      → N who
      → Q d
      → can_transition operation_directive_transitions d.status target ≡ true
      → (target ≡ "approved" → IsSecondPerson p d who)
      → Q (advanced ctx input who target d)
  pub settles :
      (d : OperationDirective) (target : String) (v now : ℕ)
      → Q d
      → d.status ≡ "executing"
      → (target ≡ "completed") ⊎ (target ≡ "aborted")
      → Q (settled d target v now)
