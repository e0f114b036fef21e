-- ===== src/Repository/Store/Laws.antt =====
-- What the operations of a store do to its table when they succeed.
use gb_516_hydropower_gate_d.Prelude.{
  ℕ, ◌≡◌, ◌≢◌, refl, String, true, false, List, ◌++◌, [], ◌∷◌, Option, none, some, arith, sym, ap,
  ◌∙◌, any_of_count, find?, any, rewrite,
}
use gb_516_hydropower_gate_d.Failure.{Error, ok, version_conflict}
use gb_516_hydropower_gate_d.Orm.{Answer, answered, failed, from_first, has_key, scoped}
use gb_516_hydropower_gate_d.Repository.Database.{Platform, Db, Context}
use gb_516_hydropower_gate_d.Repository.Calls.Runs.{Runs}
use gb_516_hydropower_gate_d.Repository.Tables.{Aggregate, schema}
use gb_516_hydropower_gate_d.Repository.Store.{
  has_id, has_code, is_version, overwrite, stored, affected, normal_code, get, get_by_code, create,
  update, delete,
}

from_first-eq-ok :
    {T : Type 0} (x : Answer (Option T)) {row : T} → from_first x ≡ ok row → x ≡ answered (some row)
from_first-eq-ok (answered none) h = cc
from_first-eq-ok (answered (some r)) h = ground arith
from_first-eq-ok (failed n) h = cc

module _ {T : Type 0} (a : Aggregate T) where
  stored-Runs :
      (x : Answer (T × List T)) {db db' : Db} {row : T}
      → stored a x db ≡ (ok row, db')
      → (rows : List T) × (x ≡ answered (row, rows)) × (db' ≡ a.put rows db)
  stored-Runs (answered (r, rows)) h = (rows, ground arith, ground arith)
  stored-Runs (failed n) h = absurd (ground arith)

  affected-Runs :
      (missed : Error) (x : Answer (ℕ × List T)) {db db' : Db} {u : Unit {0}}
      → affected a missed x db ≡ (ok u, db')
      → (n : ℕ) × (rows : List T) × (x ≡ answered (n, rows)) × (n ≢ 0) × (db' ≡ a.put rows db)
  affected-Runs missed (answered (n, rows)) h = (n, rows, refl, ground arith, ground arith)
  affected-Runs missed (failed n) h = absurd (ground arith)

module _ (p : Platform) {T : Type 0} (a : Aggregate T) where
  pub get_found :
      (id : ℕ) (db : Db) {row : T}
      → get p a id db ≡ ok row
      → find? (scoped (schema a) (has_id a id)) (a.rows db) ≡ some row
  unfolding get
  get_found id db h =
      sym (p.gorm.first_found T (schema a) (has_id a id) (a.rows db) _ (from_first-eq-ok _ h))

  pub get_by_code_found :
      (code : String) (db : Db) {row : T}
      → get_by_code p a code db ≡ ok row
      → find? (scoped (schema a) (has_code a (normal_code p code))) (a.rows db) ≡ some row
  unfolding get_by_code
  get_by_code_found code db h =
      sym (p.gorm.first_found T (schema a) _ (a.rows db) _ (from_first-eq-ok _ h))

  -- A successful update found a live row of that version, and overwrote such rows only.
  pub update-Runs :
      (id v : ℕ) (item : T) {db db' : Db} {u : Unit {0}}
      → Runs (update p a id v item) db u db'
      → (any (scoped (schema a) (is_version a id v)) (a.rows db) ≡ true)
        × (db'
            ≡ a.put
                (rewrite (scoped (schema a) (is_version a id v)) (overwrite a item) (a.rows db))
                db)
  unfolding update
  update-Runs id v item {db} h =
      let (n, rows, e, some_rows, d) = affected-Runs a version_conflict _ h.run in
      let (count, rewritten) = p.gorm.updates_rewrites T (schema a) _ _ (a.rows db) rows n e in
      (
        any_of_count _ (a.rows db) (λ z. some_rows (count ∙ z)),
        d ∙ ap (λ xs. a.put xs db) rewritten,
      )

  pub create-Runs :
      (ctx : Context) (item : T) {row : T} {db db' : Db}
      → Runs (create p a ctx item) db row db'
      → (k : ℕ) × (any (has_key (schema a) k) (a.rows db) ≡ false)
        × (any ((schema a).clash row) (a.rows db) ≡ false)
        × (row ≡ (schema a).stamp k ctx.now item)
        × (db' ≡ a.put (a.rows db ++ row ∷ []) db)
  unfolding create
  create-Runs ctx item {row} {db} h =
      let (rows, e, d) = stored-Runs a _ h.run in
      let (k, fresh, apart, r, appended) =
        p.gorm.create_appends T (schema a) ctx.now item row (a.rows db) rows e in
      (k, fresh, apart, r, d ∙ ap (λ xs. a.put xs db) appended)

  pub delete-Runs :
      (ctx : Context) (id : ℕ) {db db' : Db} {u : Unit {0}}
      → Runs (delete p a ctx id) db u db'
      → (any (scoped (schema a) (has_id a id)) (a.rows db) ≡ true)
        × (db'
            ≡ a.put
                (rewrite
                  (scoped (schema a) (has_id a id))
                  ((schema a).mark_deleted ctx.now)
                  (a.rows db))
                db)
  unfolding delete
  delete-Runs ctx id {db} h =
      let (n, rows, e, some_rows, d) = affected-Runs a _ _ h.run in
      let (count, rewritten) = p.gorm.delete_marks T (schema a) ctx.now id (a.rows db) rows n e in
      (
        any_of_count _ (a.rows db) (λ z. some_rows (count ∙ z)),
        d ∙ ap (λ xs. a.put xs db) rewritten,
      )
