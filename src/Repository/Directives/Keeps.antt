-- ===== src/Repository/Directives/Keeps.antt =====
-- Predicates on the database that the directive repository keeps.
use gb_516_hydropower_gate_d.Prelude.{
  ℕ, ◌≡◌, refl, String, Bool, Option, none, some, List, ◌++◌, [], ◌∷◌, arith, find?, find?_passes,
  subst, sym, nat_eq, true,
}
use gb_516_hydropower_gate_d.Failure.{Result, ok, err}
use gb_516_hydropower_gate_d.Model.{AuditLog, DirectiveApproval, OperationDirective}
use gb_516_hydropower_gate_d.Orm.{Answer, answered, failed, scoped}
use gb_516_hydropower_gate_d.Repository.Database.{Platform, Db, Context}
use gb_516_hydropower_gate_d.Repository.Calls.Keeps.{Keeps, Keeps-bind, Keeps-transaction}
use gb_516_hydropower_gate_d.Repository.Tables.{schema, approvals, directives}
use gb_516_hydropower_gate_d.Repository.Store as Store
use gb_516_hydropower_gate_d.Repository.Store.Laws.{get_found}
use gb_516_hydropower_gate_d.Repository.Security.{append_audit}
use gb_516_hydropower_gate_d.Repository.Directives.{
  approval_stored, create_approval, transition_with_approval, with_approvals, preload, reload, get,
  get_by_code,
}

-- What `get` returns is a live row of that key, with its approvals filled in.
abbrev pub Found : Db → OperationDirective → Type 0
Found db item =
    (row : OperationDirective) × (q : OperationDirective → Bool) × (xs : List DirectiveApproval)
    × (find? (scoped (schema directives) q) db.directives ≡ some row)
    × (item ≡ record row { approvals = xs })

with_approvals_cases :
    (row : OperationDirective) (x : Answer (List DirectiveApproval)) {item : OperationDirective}
    → with_approvals row x ≡ ok item
    → (xs : List DirectiveApproval) × (item ≡ record row { approvals = xs })
with_approvals_cases row (answered xs) h = (xs, ground arith)
with_approvals_cases row (failed n) h = cc

pub has_id-eq :
    (row : OperationDirective) (id : ℕ)
    → scoped (schema directives) (Store.has_id directives id) row ≡ true
    → row.id ≡ id
has_id-eq row id h = ground arith

module _ (p : Platform) where
  preload_cases :
      (r : Result OperationDirective) (db : Db) {item : OperationDirective}
      → preload p r db ≡ ok item
      → (row : OperationDirective) × (xs : List DirectiveApproval) × (r ≡ ok row)
        × (item ≡ record row { approvals = xs })
  preload_cases (ok row) db h = let (xs, e) = with_approvals_cases row _ h in (row, xs, refl, e)
  preload_cases (err e) db h = cc

  -- The row is the one that the table has under the key.
  pub get_finds :
      (id : ℕ) (db : Db) {item : OperationDirective}
      → get p id db ≡ ok item
      → (row : OperationDirective) × (xs : List DirectiveApproval) × (find?
            (scoped (schema directives) (Store.has_id directives id))
            db.directives
          ≡ some row)
        × (item ≡ record row { approvals = xs })
  unfolding get
  get_finds id db h =
      let (row, xs, r, e) = preload_cases _ db h in (row, xs, get_found p directives id db r, e)

  pub get-Found :
      (id : ℕ) (db : Db) {item : OperationDirective} → get p id db ≡ ok item → Found db item
  get-Found id db h = let (row, xs, f, e) = get_finds id db h in (row, _, xs, f, e)

  reload_cases :
      (r : Result OperationDirective) (db : Db) {item : OperationDirective}
      → reload p r db ≡ ok item
      → (row : OperationDirective) × (r ≡ ok row) × (get p row.id db ≡ ok item)
  unfolding get
  reload_cases (ok row) db h = (row, refl, h)
  reload_cases (err e) db h = cc

  -- The row of the key that the code led to.
  pub get_by_code_finds :
      (code : String) (db : Db) {item : OperationDirective}
      → get_by_code p code db ≡ ok item
      → (row : OperationDirective) × (xs : List DirectiveApproval) × (find?
            (scoped (schema directives) (Store.has_id directives row.id))
            db.directives
          ≡ some row)
        × (item ≡ record row { approvals = xs })
  unfolding get_by_code
  get_by_code_finds code db h =
      let (named, r, found) = reload_cases _ db h in
      let (row, xs, f, e) = get_finds named.id db found in
      let same = has_id-eq row named.id (
        find?_passes (scoped (schema directives) (Store.has_id directives named.id)) db.directives
          f) in
      (
        row,
        xs,
        subst
            (λ k.
              find? (scoped (schema directives) (Store.has_id directives k)) db.directives
              ≡ some row)
            (sym same) f,
        e,
      )

  pub get_by_code-Found :
      (code : String) (db : Db) {item : OperationDirective}
      → get_by_code p code db ≡ ok item
      → Found db item
  get_by_code-Found code db h =
      let (row, xs, f, e) = get_by_code_finds code db h in (row, _, xs, f, e)

module _ (P : Db → Type 0) (p : Platform) where
  Keeps-approval_stored :
      (x : Answer (DirectiveApproval × List DirectiveApproval)) (db : Db)
      → ((row : DirectiveApproval) (rows : List DirectiveApproval)
          → x ≡ answered (row, rows)
          → P (record db { approvals = rows }))
      → P db
      → P (approval_stored x db).1
  Keeps-approval_stored (answered (row, rows)) db put h = put row rows refl
  Keeps-approval_stored (failed n) db put h = h

  Keeps-create_approval :
      (ctx : Context) (id : ℕ) (approval : Option DirectiveApproval)
      → ((db : Db) (row : DirectiveApproval)
          → P db
          → P (record db { approvals = db.approvals ++ row ∷ [] }))
      → Keeps P (create_approval p ctx id approval)
  unfolding create_approval
  Keeps-create_approval ctx id none put = record { at = λ db h. h }
  Keeps-create_approval ctx id (some approval) put = record {
    at = λ db h.
        Keeps-approval_stored _ db
          (λ row rows e.
            let (k, fresh, apart, r, appended) =
              p.gorm.create_appends DirectiveApproval approvals ctx.now
                (record approval { directive_id = id }) row db.approvals rows e in
            rw appended (put db row h))
          h;
  }

  pub Keeps-transition_with_approval :
      (ctx : Context) (id v : ℕ) (item : OperationDirective) (approval : Option DirectiveApproval)
      (audit : AuditLog)
      → Keeps P (Store.update p directives id v item)
      → ((db : Db) (row : DirectiveApproval)
          → P db
          → P (record db { approvals = db.approvals ++ row ∷ [] }))
      → Keeps P (append_audit p ctx audit)
      → Keeps P (transition_with_approval p ctx id v item approval audit)
  unfolding transition_with_approval
  Keeps-transition_with_approval ctx id v item approval audit updates put appends =
      Keeps-transaction P p _ (
        Keeps-bind P _ _ updates
          λ _. Keeps-bind P _ _ (Keeps-create_approval ctx id approval put) λ _. appends)
