-- ===== src/Startup/Seed.antt =====
-- Seed and the functions that it calls (backend/internal/database/database.go).
use gb_516_hydropower_gate_d.Prelude.{ℕ, zero, suc, String, true, List, [], ◌∷◌, ltb, if◌then◌else◌}
use gb_516_hydropower_gate_d.Failure.{Result, ok, ◌and_then◌}
use gb_516_hydropower_gate_d.Config.{Config}
use gb_516_hydropower_gate_d.Model.{User, OperationDirective, DirectiveApproval}
use gb_516_hydropower_gate_d.Orm.{Answer, answered, failed, from_answer}
use gb_516_hydropower_gate_d.Repository.{
  Platform, Db, Context, Exec, ◌>>=◌, ◌>>◌, pure, ask, Aggregate, schema, reservoirs, gates,
  directives, confirmations, users, approvals,
}
use gb_516_hydropower_gate_d.Startup.Records.{
  Account, accounts, seed_reservoirs, seed_gates, seed_directives, seed_approvals,
  seed_confirmations,
}

-- What a statement for a slice leaves: the table is put back into the database.
abbrev pub all_stored : {T : Type 0} → (List T → Db → Db) → Answer (List T × List T) → Exec (List T)
all_stored put (answered (created, rows)) db = (ok created, put rows db)
all_stored put (failed n) db = (from_answer (failed n), db)

-- `if err := ...Count(&n).Error; err != nil || n > 0 { return err }`, and then the rest.
unfoldable pub unless_any : (Db → Answer ℕ) → Exec (Unit {0}) → Exec (Unit {0})
unless_any count fill = do n ← ask (λ db. from_answer (count db)); if ltb 0 n then pure tt else fill

-- `items[n].ID`
abbrev pub id_at : ℕ → List OperationDirective → ℕ
id_at n [] = 0
id_at zero (item ∷ items) = item.id
id_at (suc n) (item ∷ items) = id_at n items

abbrev pub new_user : Account → String → User
new_user a password_hash = record {
  id = 0;
  username = a.username;
  display_name = a.display_name;
  password_hash = password_hash;
  role = a.role;
  active = true;
  created_at = 0;
  updated_at = 0;
}

module _ (hash : String → Result String) where
  -- The loop over the accounts; `hash` is bcrypt.GenerateFromPassword at the default cost.
  unfoldable pub hash_accounts : List Account → Result (List User)
  hash_accounts [] = ok []
  hash_accounts (a ∷ rest) =
      let others = hash_accounts rest in
      hash a.password and_then λ password_hash.
      others and_then λ users. ok (new_user a password_hash ∷ users)

abbrev pub put_users : List User → Db → Db
put_users rows db = record db { users = rows }

abbrev pub put_approvals : List DirectiveApproval → Db → Db
put_approvals rows db = record db { approvals = rows }

module _ (p : Platform) (ctx : Context) where
  abbrev pub create_rows : {T : Type 0} → Aggregate T → List T → Exec (List T)
  create_rows {T} a items db =
      all_stored a.put (p.gorm.create_all T (schema a) ctx.now items (a.rows db)) db

  abbrev pub count_rows : {T : Type 0} → Aggregate T → Db → Answer ℕ
  count_rows {T} a db = p.gorm.count T (schema a) (λ row. true) (a.rows db)

  unfoldable pub create_users : List User → Exec (List User)
  create_users items db =
      all_stored put_users (p.gorm.create_all User users ctx.now items db.users) db

  unfoldable pub create_approvals : List DirectiveApproval → Exec (List DirectiveApproval)
  create_approvals items db =
      all_stored put_approvals
        (p.gorm.create_all DirectiveApproval approvals ctx.now items db.approvals) db

  -- The first block of Seed.
  unfoldable pub seed_users : (String → Result String) → Config → Exec (Unit {0})
  unfolding unless_any hash_accounts create_users
  seed_users hash c =
      unless_any (λ db. p.gorm.count User users (λ row. true) db.users)
        do
          seeds ← ask (λ db. hash_accounts hash (accounts c))
          created ← create_users seeds
          pure tt

  -- seedReservoir
  unfoldable pub seed_reservoir : Exec (Unit {0})
  unfolding unless_any
  seed_reservoir =
      unless_any (count_rows reservoirs)
        do created ← create_rows reservoirs (seed_reservoirs ctx.now); pure tt

  -- seedGateUnit
  unfoldable pub seed_gate_unit : Exec (Unit {0})
  unfolding unless_any
  seed_gate_unit =
      unless_any (count_rows gates) do created ← create_rows gates (seed_gates ctx.now); pure tt

  -- seedOperationDirective
  unfoldable pub seed_operation_directive : Exec (Unit {0})
  unfolding unless_any create_approvals
  seed_operation_directive = unless_any (count_rows directives) do
    items ← create_rows directives (seed_directives ctx.now)
    filed ← create_approvals (seed_approvals ctx.now (id_at 1 items) (id_at 2 items))
    pure tt

  -- seedExecutionConfirmation
  unfoldable pub seed_execution_confirmation : Exec (Unit {0})
  unfolding unless_any
  seed_execution_confirmation =
      unless_any (count_rows confirmations)
        do created ← create_rows confirmations (seed_confirmations ctx.now); pure tt

  unfoldable pub seed : (String → Result String) → Config → Exec (Unit {0})
  unfolding seed_users seed_reservoir seed_gate_unit seed_operation_directive
      seed_execution_confirmation
  seed hash c = do
    seed_users hash c
    seed_reservoir
    seed_gate_unit
    seed_operation_directive
    seed_execution_confirmation
