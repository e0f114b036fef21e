-- ===== src/Repository/Tables.antt =====
-- Where each table stands in the database, and what the struct tags of its model say
-- (backend/internal/model, and the Omit list of Store.update).
use gb_516_hydropower_gate_d.Prelude.{
  ℕ, ◌≡◌, refl, Bool, true, false, ◌&&◌, ◌||◌, Option, none, some, List, ◌==◌, nat_eq, string_eq,
  if◌then◌else◌,
}
use gb_516_hydropower_gate_d.Model.{
  BaseModel, before_create, Reservoir, GateUnit, OperationDirective, DirectiveApproval,
  ExecutionConfirmation, AuditLog, User,
}
use gb_516_hydropower_gate_d.Orm.{Schema}
use gb_516_hydropower_gate_d.Repository.Database.{Db}

abbrev pub is_none : Option ℕ → Bool
is_none none = true
is_none (some _) = false

abbrev or_now : ℕ → ℕ → ℕ
or_now now t = if t == 0 then now else t

abbrev stamp_base : ℕ → ℕ → BaseModel → BaseModel
stamp_base key now b = record (before_create b) {
  id = key;
  created_at = or_now now b.created_at;
  updated_at = or_now now b.updated_at;
}

-- An aggregate: a model with a BaseModel inside (`GetBase`), kept in a table of the database.
pub record Aggregate (T : Type 0) : Type 0 where
  pub base : T → BaseModel
  pub with_base : BaseModel → T → T
  -- the unique indices but that of the code
  pub also_clash : T → T → Bool
  pub rows : Db → List T
  pub put : List T → Db → Db
  pub base-with_base : (b : BaseModel) (row : T) → base (with_base b row) ≡ b
  pub rows-put : (xs : List T) (db : Db) → rows (put xs db) ≡ xs
  pub put-rows : (db : Db) → put (rows db) db ≡ db

abbrev pub schema : {T : Type 0} → Aggregate T → Schema T
schema a = record {
  key = λ row. (a.base row).id;
  is_live = λ row. is_none (a.base row).deleted_at;
  stamp = λ key now item. a.with_base (stamp_base key now (a.base item)) item;
  clash = λ row other. (a.base row).code == (a.base other).code || a.also_clash row other;
  mark_deleted = λ now row. a.with_base (record (a.base row) { deleted_at = some now }) row;
}

abbrev pub reservoirs : Aggregate Reservoir
reservoirs = record {
  base = λ row. row.base;
  with_base = λ b row. record row { base = b };
  also_clash = λ row other. false;
  rows = λ db. db.reservoirs;
  put = λ xs db. record db { reservoirs = xs };
  base-with_base = λ b row. refl;
  rows-put = λ xs db. refl;
  put-rows = λ db. refl;
}

abbrev pub gates : Aggregate GateUnit
gates = record {
  base = λ row. row.base;
  with_base = λ b row. record row { base = b };
  also_clash = λ row other. false;
  rows = λ db. db.gates;
  put = λ xs db. record db { gates = xs };
  base-with_base = λ b row. refl;
  rows-put = λ xs db. refl;
  put-rows = λ db. refl;
}

abbrev pub directives : Aggregate OperationDirective
directives = record {
  base = λ row. row.base;
  with_base = λ b row. record row { base = b };
  also_clash = λ row other. false;
  rows = λ db. db.directives;
  put = λ xs db. record db { directives = xs };
  base-with_base = λ b row. refl;
  rows-put = λ xs db. refl;
  put-rows = λ db. refl;
}

abbrev pub confirmations : Aggregate ExecutionConfirmation
confirmations = record {
  base = λ row. row.base;
  with_base = λ b row. record row { base = b };
  also_clash = λ row other. row.related_code == other.related_code;
  rows = λ db. db.confirmations;
  put = λ xs db. record db { confirmations = xs };
  base-with_base = λ b row. refl;
  rows-put = λ xs db. refl;
  put-rows = λ db. refl;
}

abbrev pub audits : Schema AuditLog
audits = record {
  key = λ row. row.id;
  is_live = λ row. true;
  stamp = λ key now row. record row { id = key; created_at = or_now now row.created_at };
  clash = λ row other. false;
  mark_deleted = λ now row. row;
}

-- The unique index idx_directive_stage spans the directive and the stage.
abbrev pub approvals : Schema DirectiveApproval
approvals = record {
  key = λ row. row.id;
  is_live = λ row. true;
  stamp = λ key now row. record row { id = key; created_at = or_now now row.created_at };
  clash = λ row other. row.directive_id == other.directive_id && row.stage == other.stage;
  mark_deleted = λ now row. row;
}

abbrev pub users : Schema User
users = record {
  key = λ row. row.id;
  is_live = λ row. true;
  stamp = λ key now row. record row {
    id = key;
    created_at = or_now now row.created_at;
    updated_at = or_now now row.updated_at;
  };
  clash = λ row other. row.username == other.username;
  mark_deleted = λ now row. row;
}
