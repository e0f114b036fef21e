-- ===== src/Repository/Store.antt =====
-- backend/internal/repository/base.go: Store[T] over any aggregate.
pub mod Laws
pub mod Keeps
pub mod Lock
use gb_516_hydropower_gate_d.Prelude.{
  ℕ, String, Bool, ◌&&◌, List, ◌==◌, nat_eq, string_eq, if◌then◌else◌,
}
use gb_516_hydropower_gate_d.Text.{trim_space, to_upper}
use gb_516_hydropower_gate_d.Failure.{Error, Result, ok, err, version_conflict, record_not_found}
use gb_516_hydropower_gate_d.Model.{AuditLog}
use gb_516_hydropower_gate_d.Orm.{Answer, answered, failed, from_answer, from_first}
use gb_516_hydropower_gate_d.Repository.Database.{Platform, Db, Context, Exec, ◌>>◌, transaction}
use gb_516_hydropower_gate_d.Repository.Tables.{Aggregate, schema}
use gb_516_hydropower_gate_d.Repository.Security.{append_audit}

module _ {T : Type 0} (a : Aggregate T) where
  abbrev pub has_id : ℕ → T → Bool
  has_id id row = (a.base row).id == id

  abbrev pub has_code : String → T → Bool
  has_code code row = (a.base row).code == code

  -- WHERE id = ? AND version = ?
  abbrev pub is_version : ℕ → ℕ → T → Bool
  is_version id expected row = has_id id row && (a.base row).version == expected

  -- Select("*").Omit("id", "code", "created_at", "deleted_at")
  unfoldable pub overwrite : T → T → T
  overwrite item row =
      let b = a.base row in
      a.with_base
        (record (a.base item) {
          id = b.id;
          code = b.code;
          created_at = b.created_at;
          deleted_at = b.deleted_at;
        })
        item

  abbrev pub stored : Answer (T × List T) → Exec T
  stored (answered (row, rows)) db = (ok row, a.put rows db)
  stored (failed n) db = (from_answer (failed n), db)

  -- `RowsAffected == 0` is turned into `missed`.
  abbrev pub affected : Error → Answer (ℕ × List T) → Exec (Unit {0})
  affected missed (answered (n, rows)) db = (if n == 0 then err missed else ok tt, a.put rows db)
  affected missed (failed n) db = (from_answer (failed n), db)

-- The form in which a code is stored and looked up.
abbrev pub normal_code : Platform → String → String
normal_code p code = to_upper p.unicode (trim_space code)

module _ (p : Platform) {T : Type 0} (a : Aggregate T) where
  -- First(&item, id)
  unfoldable pub get : ℕ → Db → Result T
  get id db = from_first (p.gorm.first T (schema a) (has_id a id) (a.rows db))

  unfoldable pub get_by_code : String → Db → Result T
  get_by_code code db =
      from_first (p.gorm.first T (schema a) (has_code a (normal_code p code)) (a.rows db))

  -- The result is the item as gorm leaves it behind the pointer.
  unfoldable pub create : Context → T → Exec T
  create ctx item db = stored a (p.gorm.create T (schema a) ctx.now item (a.rows db)) db

  unfoldable pub update : ℕ → ℕ → T → Exec (Unit {0})
  update id expected item db =
      affected a version_conflict
        (p.gorm.updates T (schema a) (is_version a id expected) (overwrite a item) (a.rows db)) db

  unfoldable pub delete : Context → ℕ → Exec (Unit {0})
  delete ctx id db =
      affected a record_not_found (p.gorm.delete T (schema a) ctx.now id (a.rows db)) db

  unfoldable pub transition_with_audit : Context → ℕ → ℕ → T → AuditLog → Exec (Unit {0})
  unfolding update
  transition_with_audit ctx id expected item audit =
      transaction p (do update id expected item; append_audit p ctx audit)
