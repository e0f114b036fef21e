-- ===== src/Repository/Store/Keeps.antt =====
-- Predicates on the database that the operations of a store keep: it is enough that each write
-- that its statement can make keeps them.
use gb_516_hydropower_gate_d.Prelude.{
  ℕ, ◌≡◌, refl, false, List, ◌++◌, [], ◌∷◌, sym, any, rewrite, subst,
}
use gb_516_hydropower_gate_d.Failure.{Error, version_conflict, record_not_found}
use gb_516_hydropower_gate_d.Model.{AuditLog}
use gb_516_hydropower_gate_d.Orm.{Answer, answered, failed, scoped, has_key}
use gb_516_hydropower_gate_d.Repository.Database.{Platform, Db, Context}
use gb_516_hydropower_gate_d.Repository.Calls.Keeps.{Keeps}
use gb_516_hydropower_gate_d.Repository.Tables.{Aggregate, schema, audits}
use gb_516_hydropower_gate_d.Repository.Security.{audit_stored, append_audit}
use gb_516_hydropower_gate_d.Repository.Store.{
  has_id, is_version, overwrite, stored, affected, create, update, delete,
}

module _ (P : Db → Type 0) {T : Type 0} (a : Aggregate T) where
  Keeps-stored :
      (x : Answer (T × List T)) (db : Db)
      → ((row : T) (rows : List T) → x ≡ answered (row, rows) → P (a.put rows db))
      → P db
      → P (stored a x db).1
  Keeps-stored (answered (row, rows)) db put h = put row rows refl
  Keeps-stored (failed n) db put h = h

  Keeps-affected :
      (missed : Error) (x : Answer (ℕ × List T)) (db : Db)
      → ((n : ℕ) (rows : List T) → x ≡ answered (n, rows) → P (a.put rows db))
      → P db
      → P (affected a missed x db).1
  Keeps-affected missed (answered (n, rows)) db put h = put n rows refl
  Keeps-affected missed (failed n) db put h = h

module _ (P : Db → Type 0) (p : Platform) {T : Type 0} (a : Aggregate T) where
  pub Keeps-update :
      (id v : ℕ) (item : T)
      → ((db : Db)
          → P db
          → P (
              a.put
                (rewrite (scoped (schema a) (is_version a id v)) (overwrite a item) (a.rows db))
                db))
      → Keeps P (update p a id v item)
  unfolding update
  Keeps-update id v item put = record {
    at = λ db h.
        Keeps-affected P a version_conflict _ db
          (λ n rows e.
            subst (λ xs. P (a.put xs db))
              (sym (p.gorm.updates_rewrites T (schema a) _ _ (a.rows db) rows n e).1) (put db h))
          h;
  }

  pub Keeps-delete :
      (ctx : Context) (id : ℕ)
      → ((db : Db)
          → P db
          → P (
              a.put
                (rewrite
                  (scoped (schema a) (has_id a id))
                  ((schema a).mark_deleted ctx.now)
                  (a.rows db))
                db))
      → Keeps P (delete p a ctx id)
  unfolding delete
  Keeps-delete ctx id put = record {
    at = λ db h.
        Keeps-affected P a record_not_found _ db
          (λ n rows e.
            subst (λ xs. P (a.put xs db))
              (sym (p.gorm.delete_marks T (schema a) ctx.now id (a.rows db) rows n e).1) (put db h))
          h;
  }

  pub Keeps-create :
      (ctx : Context) (item : T)
      → ((db : Db) (k : ℕ)
          → any (has_key (schema a) k) (a.rows db) ≡ false
          → any ((schema a).clash ((schema a).stamp k ctx.now item)) (a.rows db) ≡ false
          → P db
          → P (a.put (a.rows db ++ (schema a).stamp k ctx.now item ∷ []) db))
      → Keeps P (create p a ctx item)
  unfolding create
  Keeps-create ctx item put = record {
    at = λ db h.
        Keeps-stored P a _ db
          (λ row rows e.
            let (k, fresh, apart, r, appended) =
              p.gorm.create_appends T (schema a) ctx.now item row (a.rows db) rows e in
            rw (appended, r) (put db k fresh (rw r at apart) h))
          h;
  }

module _ (P : Db → Type 0) (p : Platform) where
  Keeps-audit_stored :
      (x : Answer (AuditLog × List AuditLog)) (db : Db)
      → ((row : AuditLog) (rows : List AuditLog)
          → x ≡ answered (row, rows)
          → P (record db { audits = rows }))
      → P db
      → P (audit_stored x db).1
  Keeps-audit_stored (answered (row, rows)) db put h = put row rows refl
  Keeps-audit_stored (failed n) db put h = h

  pub Keeps-append_audit :
      (ctx : Context) (log : AuditLog)
      → ((db : Db) (row : AuditLog) → P db → P (record db { audits = db.audits ++ row ∷ [] }))
      → Keeps P (append_audit p ctx log)
  unfolding append_audit
  Keeps-append_audit ctx log put = record {
    at = λ db h.
        Keeps-audit_stored _ db
          (λ row rows e.
            let (k, fresh, apart, r, appended) =
              p.gorm.create_appends AuditLog audits ctx.now log row db.audits rows e in
            rw appended (put db row h))
          h;
  }
