-- ===== src/Repository/Directives/Laws.antt =====
-- What a successful `TransitionWithApproval` leaves in the database.
use gb_516_hydropower_gate_d.Prelude.{
  ℕ, ◌≡◌, refl, true, Option, none, some, List, ◌++◌, [], ◌∷◌, arith, ap, ◌∙◌, any, rewrite,
  append-nil, sym,
}
use gb_516_hydropower_gate_d.Failure.{Result, ok}
use gb_516_hydropower_gate_d.Model.{OperationDirective, DirectiveApproval, AuditLog}
use gb_516_hydropower_gate_d.Orm.{Answer, answered, failed, scoped}
use gb_516_hydropower_gate_d.Repository.Database.{Platform, Db, Context}
use gb_516_hydropower_gate_d.Repository.Calls.Runs.{Runs, bind-Runs, transaction-Runs}
use gb_516_hydropower_gate_d.Repository.Tables.{schema, directives, approvals, audits}
use gb_516_hydropower_gate_d.Repository.Store.{is_version, overwrite}
use gb_516_hydropower_gate_d.Repository.Store.Laws.{update-Runs}
use gb_516_hydropower_gate_d.Repository.Security.Laws.{append_audit-Runs}
use gb_516_hydropower_gate_d.Repository.Directives.{
  approval_stored, create_approval, transition_with_approval,
}

-- The rows that an approval adds: one row for the directive, or none.
abbrev pub IsFiled : ℕ → ℕ → Option DirectiveApproval → List DirectiveApproval → Type 0
IsFiled now id none rows = rows ≡ []
IsFiled now id (some a) rows =
    (k : ℕ) × (rows ≡ approvals.stamp k now (record a { directive_id = id }) ∷ [])

approval_stored-Runs :
    (x : Answer (DirectiveApproval × List DirectiveApproval)) (db : Db) {u : Unit {0}} {db' : Db}
    → approval_stored x db ≡ (ok u, db')
    → (row : DirectiveApproval) × (rows : List DirectiveApproval) × (x ≡ answered (row, rows))
      × (db' ≡ record db { approvals = rows })
approval_stored-Runs (answered (row, rows)) db h = (row, rows, refl, ground arith)
approval_stored-Runs (failed n) db h = absurd (ground arith)

create_approval-Runs :
    (p : Platform) (ctx : Context) (id : ℕ) (approval : Option DirectiveApproval) {db db' : Db}
    {u : Unit {0}}
    → Runs (create_approval p ctx id approval) db u db'
    → (rows : List DirectiveApproval) × IsFiled ctx.now id approval rows
      × (db' ≡ record db { approvals = db.approvals ++ rows })
unfolding create_approval
create_approval-Runs p ctx id none {db} h = (
  [],
  refl,
  ap (λ (r : Result (Unit {0}) × Db). r.1) (sym h.run)
      ∙ ap (λ xs. record db { approvals = xs }) (sym (append-nil db.approvals)),
)
create_approval-Runs p ctx id (some a) {db} h =
    let (row, rows, e, d) = approval_stored-Runs _ db h.run in
    let (k, fresh, apart, r, appended) =
      p.gorm.create_appends DirectiveApproval approvals ctx.now (record a { directive_id = id }) row
        db.approvals rows e in
    (
      row ∷ [],
      (k, ap (λ (x : DirectiveApproval). x ∷ []) r),
      d ∙ ap (λ xs. record db { approvals = xs }) appended,
    )

-- The directive is overwritten, its approval filed and the change audited.
pub record IsRecorded (now id v : ℕ) (item : OperationDirective)
    (approval : Option DirectiveApproval) (audit : AuditLog) (db db' : Db) : Type 0 where
  pub filed : List DirectiveApproval
  pub key : ℕ
  pub version : any (scoped (schema directives) (is_version directives id v)) db.directives ≡ true
  pub filed_one : IsFiled now id approval filed
  pub left : db' ≡ record db {
    directives =
        rewrite
          (scoped (schema directives) (is_version directives id v))
          (overwrite directives item)
          db.directives;
    approvals = db.approvals ++ filed;
    audits = db.audits ++ audits.stamp key now audit ∷ [];
  }

pub transition_with_approval-Runs :
    (p : Platform) (ctx : Context) (id v : ℕ) (item : OperationDirective)
    (approval : Option DirectiveApproval) (audit : AuditLog) {db db' : Db} {u : Unit {0}}
    → Runs (transition_with_approval p ctx id v item approval audit) db u db'
    → IsRecorded ctx.now id v item approval audit db db'
unfolding transition_with_approval
transition_with_approval-Runs p ctx id v item approval audit {db} h =
    let (_, db₁, r₁, h₁) = bind-Runs (transaction-Runs p _ h) in
    let (_, db₂, r₂, r₃) = bind-Runs h₁ in
    let (version, updated) = update-Runs p directives id v item r₁ in
    let (rows, one, approved) = create_approval-Runs p ctx id approval r₂ in
    let logged = append_audit-Runs p ctx audit r₃ in
    record {
      filed = rows;
      key = logged.key;
      version = version;
      filed_one = one;
      left =
          logged.appended
          ∙ ap
              (λ (x : Db). record x {
                audits = x.audits ++ audits.stamp logged.key ctx.now audit ∷ [];
              })
              (approved ∙ ap (λ (x : Db). record x { approvals = x.approvals ++ rows }) updated);
    }
