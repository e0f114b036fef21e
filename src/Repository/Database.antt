-- ===== src/Repository/Database.antt =====
-- The tables, the context of a request, and the calls that read and write the database
-- (backend/internal/repository/base.go: databaseForContext, withinTransaction).
use gb_516_hydropower_gate_d.Prelude.{ℕ, Bool, true, List, if◌then◌else◌}
use gb_516_hydropower_gate_d.Text.{Unicode}
use gb_516_hydropower_gate_d.Failure.{Error, Result, ok, err, require}
use gb_516_hydropower_gate_d.Model.{
  Reservoir, GateUnit, OperationDirective, DirectiveApproval, ExecutionConfirmation, AuditLog, User,
}
use gb_516_hydropower_gate_d.Orm.{Gorm, from_answer}

-- What the backend takes from outside the repository.
pub record Platform : Type 1 where
  pub unicode : Unicode
  pub gorm : Gorm

pub record Db : Type 0 where
  pub users : List User
  pub audits : List AuditLog
  pub reservoirs : List Reservoir
  pub gates : List GateUnit
  pub directives : List OperationDirective
  pub approvals : List DirectiveApproval
  pub confirmations : List ExecutionConfirmation

-- `in_transaction` is whether the context carries `transactionContextKey`. `now` is the time of
-- the request: every `time.Now()` of one call reads it.
pub record Context : Type 0 where
  pub in_transaction : Bool
  pub now : ℕ

-- A call that may write. What it wrote before it failed stays written, unless a transaction
-- takes it back.
abbrev pub Exec {ℓ} : Type ℓ → Type ℓ
Exec A = Db → Result A × Db

abbrev pub continue {ℓ κ} : {A : Type ℓ} {B : Type κ} → Result A → (A → Exec B) → Exec B
continue (ok a) f db = f a db
continue (err e) f db = (err e, db)

unfoldable pub pure {ℓ} : {A : Type ℓ} → A → Exec A
pure a db = (ok a, db)

-- A call that only reads.
unfoldable pub ask {ℓ} : {A : Type ℓ} → (Db → Result A) → Exec A
ask f db = (f db, db)

-- `if !condition { return err }`
unfoldable pub check : Bool → Error → Exec (Unit {0})
check c e db = (require c e, db)

infixl 5 ◌>>=◌ ◌>>◌
-- Opening this opens `pure`, `ask` and `check` too.
unfoldable pub ◌>>=◌ {ℓ κ} : {A : Type ℓ} {B : Type κ} → Exec A → (A → Exec B) → Exec B
unfolding pure ask check
◌>>=◌ m f db = continue (m db).0 f (m db).1

abbrev pub ◌>>◌ {ℓ κ} : {A : Type ℓ} {B : Type κ} → Exec A → Exec B → Exec B
m >> k = m >>= λ _. k

-- gorm's `Transaction`: it rolls back when the function fails, and when the commit does. What the
-- function assigns to variables around it is its result.
abbrev pub settle : {A : Type 0} → Platform → Result A → Db → Db → Result A × Db
settle p (err e) after before = (err e, before)
settle p (ok a) after before = elim (from_answer (p.gorm.commit Db after)) [
  | ok _ ↦ (ok a, after)
  | err e ↦ (err e, before)
]

unfoldable pub transaction : {A : Type 0} → Platform → Exec A → Exec A
transaction p fn db = elim (from_answer (p.gorm.begin Db db)) [
  | ok _ ↦ settle p (fn db).0 (fn db).1 db
  | err e ↦ (err e, db)
]

unfoldable pub within_transaction : {A : Type 0} → Platform → Context → (Context → Exec A) → Exec A
unfolding transaction
within_transaction p ctx fn =
    if ctx.in_transaction then fn ctx else transaction p (fn (record ctx { in_transaction = true }))
