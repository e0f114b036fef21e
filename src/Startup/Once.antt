-- ===== src/Startup/Once.antt =====
-- A database is seeded once: what a start leaves, the next one leaves as it is.
use gb_516_hydropower_gate_d.Prelude.{
  ℕ, ◌≡◌, refl, sym, ap, ◌∙◌, subst, String, true, List, ◌∷◌, inl, inr,
}
use gb_516_hydropower_gate_d.Failure.{Result}
use gb_516_hydropower_gate_d.Config.{Config}
use gb_516_hydropower_gate_d.Model.{
  User, Reservoir, GateUnit, OperationDirective, DirectiveApproval, ExecutionConfirmation,
}
use gb_516_hydropower_gate_d.Orm.{IsInserted}
use gb_516_hydropower_gate_d.Repository.{
  Platform, Db, Context, ◌>>=◌, pure, Aggregate, schema, reservoirs, gates, directives,
  confirmations, users,
}
use gb_516_hydropower_gate_d.Repository.Calls.Runs.{Runs, bind-Runs, ask-Runs, pure-Runs}
use gb_516_hydropower_gate_d.Startup.Records.{admin_account, other_accounts, accounts}
use gb_516_hydropower_gate_d.Startup.Seed.{
  unless_any, create_rows, count_rows, create_users, create_approvals, put_users, put_approvals,
  seed_users, seed_reservoir, seed_gate_unit, seed_operation_directive, seed_execution_confirmation,
  seed, hash_accounts,
}
use gb_516_hydropower_gate_d.Startup.Fill.{
  IsFilled, all_stored-Runs, inserted-IsFilled, unless_any-Runs, unless_any-IsFilled, hashed_first,
}

module _ (p : Platform) (ctx : Context) where
  create_rows-Runs :
      {T : Type 0} (a : Aggregate T) (item : T) (items : List T) {db db' : Db} {created : List T}
      → ((k : ℕ) → (schema a).is_live ((schema a).stamp k ctx.now item) ≡ true)
      → Runs (create_rows p ctx a (item ∷ items)) db created db'
      → (xs : List T) × IsFilled (schema a) xs × (db' ≡ a.put xs db)
  create_rows-Runs a item items {db} {db'} {created} live h =
      let (xs, e, left) = all_stored-Runs a.put _ h.run in
      let (inserted, appended) =
        p.gorm.create_all_appends _ (schema a) ctx.now (item ∷ items) (a.rows db) created xs e in
      (
        xs,
        subst (IsFilled (schema a)) (sym appended)
            (inserted-IsFilled (schema a) ctx.now (a.rows db) created item items live inserted),
        left,
      )

  -- A step that seeds one table.
  step-IsFilled :
      {T : Type 0} (a : Aggregate T) (item : T) (items : List T) {db db' : Db} {u : Unit {0}}
      → ((k : ℕ) → (schema a).is_live ((schema a).stamp k ctx.now item) ≡ true)
      → Runs
          (unless_any
            (count_rows p ctx a)
            (do created ← create_rows p ctx a (item ∷ items); pure tt))
          db
          u
          db'
      → (xs : List T) × IsFilled (schema a) xs × (db' ≡ a.put xs db)
  step-IsFilled a item items {db} live h = elim (unless_any-Runs p (schema a) a.rows _ h) [
    | inl (filled, same) ↦ (a.rows db, filled, same ∙ sym (a.put-rows db))
    | inr run ↦
        (let (created, db₁, r, rest) = bind-Runs run in
          let (xs, filled, left) = create_rows-Runs a item items live r in
          (xs, filled, sym (pure-Runs rest).1 ∙ left))
  ]

  reservoirs_step :
      {db db' : Db} {u : Unit {0}}
      → Runs (seed_reservoir p ctx) db u db'
      → (xs : List Reservoir) × IsFilled (schema reservoirs) xs
        × (db' ≡ record db { reservoirs = xs })
  unfolding seed_reservoir
  reservoirs_step h = step-IsFilled reservoirs _ _ (λ k. refl) h

  gates_step :
      {db db' : Db} {u : Unit {0}}
      → Runs (seed_gate_unit p ctx) db u db'
      → (xs : List GateUnit) × IsFilled (schema gates) xs × (db' ≡ record db { gates = xs })
  unfolding seed_gate_unit
  gates_step h = step-IsFilled gates _ _ (λ k. refl) h

  confirmations_step :
      {db db' : Db} {u : Unit {0}}
      → Runs (seed_execution_confirmation p ctx) db u db'
      → (xs : List ExecutionConfirmation) × IsFilled (schema confirmations) xs
        × (db' ≡ record db { confirmations = xs })
  unfolding seed_execution_confirmation
  confirmations_step h = step-IsFilled confirmations _ _ (λ k. refl) h

  directives_step :
      {db db' : Db} {u : Unit {0}}
      → Runs (seed_operation_directive p ctx) db u db'
      → (xs : List OperationDirective) × (filed : List DirectiveApproval) × IsFilled
          (schema directives)
          xs
        × (db' ≡ record db { directives = xs; approvals = filed })
  unfolding seed_operation_directive create_approvals
  directives_step {db} h = elim (unless_any-Runs p (schema directives) (λ d. d.directives) _ h) [
    | inl (filled, same) ↦ (db.directives, db.approvals, filled, same)
    | inr run ↦
        (let (items, db₁, r, rest) = bind-Runs run in
          let (filed, db₂, r₂, done) = bind-Runs rest in
          let (xs, filled, left) = create_rows-Runs directives _ _ (λ k. refl) r in
          let (approved, _, left₂) = all_stored-Runs put_approvals _ r₂.run in
          (
            xs,
            approved,
            filled,
            sym (pure-Runs done).1
                ∙ left₂
                ∙ ap (λ (d : Db). record d { approvals = approved }) left,
          ))
  ]

  users_step :
      (hash : String → Result String) (c : Config) {db db' : Db} {u : Unit {0}}
      → Runs (seed_users p ctx hash c) db u db'
      → (xs : List User) × IsFilled users xs × (db' ≡ record db { users = xs })
  unfolding seed_users create_users
  users_step hash c {db} h = elim (unless_any-Runs p users (λ d. d.users) _ h) [
    | inl (filled, same) ↦ (db.users, filled, same)
    | inr run ↦
        (let (seeds, hashed, rest) = ask-Runs (λ d. hash_accounts hash (accounts c)) run in
          let (created, db₁, r, done) = bind-Runs rest in
          let (xs, e, left) = all_stored-Runs put_users _ r.run in
          let (inserted, appended) =
            p.gorm.create_all_appends User users ctx.now seeds db.users created xs e in
          let (first, others, made) =
            hashed_first hash (admin_account c) (other_accounts c) hashed in
          (
            xs,
            subst (IsFilled users) (sym appended) (
                inserted-IsFilled users ctx.now db.users created first others (λ k. refl)
                  (subst (λ is. IsInserted users ctx.now db.users is created) made inserted)),
            sym (pure-Runs done).1 ∙ left,
          ))
  ]

-- Each table that Seed looks at has a live row.
pub record IsSeeded (db : Db) : Type 0 where
  pub users : IsFilled users db.users
  pub reservoirs : IsFilled (schema reservoirs) db.reservoirs
  pub gates : IsFilled (schema gates) db.gates
  pub directives : IsFilled (schema directives) db.directives
  pub confirmations : IsFilled (schema confirmations) db.confirmations

module _ (p : Platform) (ctx : Context) (hash : String → Result String) (c : Config) where
  pub seed-IsSeeded :
      {db db' : Db} {u : Unit {0}} → Runs (seed p ctx hash c) db u db' → IsSeeded db'
  unfolding seed
  seed-IsSeeded h =
      let (_, db₁, h₁, rest₁) = bind-Runs h in
      let (_, db₂, h₂, rest₂) = bind-Runs rest₁ in
      let (_, db₃, h₃, rest₃) = bind-Runs rest₂ in
      let (_, db₄, h₄, h₅) = bind-Runs rest₃ in
      let (us, filled₁, e₁) = users_step p ctx hash c h₁ in
      let (rs, filled₂, e₂) = reservoirs_step p ctx h₂ in
      let (gs, filled₃, e₃) = gates_step p ctx h₃ in
      let (ds, filed, filled₄, e₄) = directives_step p ctx h₄ in
      let (cs, filled₅, e₅) = confirmations_step p ctx h₅ in
      let e =
        e₅
        ∙ ap (λ (d : Db). record d { confirmations = cs })
            (e₄
              ∙ ap (λ (d : Db). record d { directives = ds; approvals = filed })
                  (e₃
                    ∙ ap (λ (d : Db). record d { gates = gs })
                        (e₂ ∙ ap (λ (d : Db). record d { reservoirs = rs }) e₁))) in
      subst IsSeeded (sym e) (record {
        users = filled₁;
        reservoirs = filled₂;
        gates = filled₃;
        directives = filled₄;
        confirmations = filled₅;
      })

  again_unchanged :
      {db db' : Db} {u : Unit {0}} → IsSeeded db → Runs (seed p ctx hash c) db u db' → db' ≡ db
  unfolding seed seed_users seed_reservoir seed_gate_unit seed_operation_directive
      seed_execution_confirmation
  again_unchanged s h =
      let (_, db₁, h₁, rest₁) = bind-Runs h in
      let (_, db₂, h₂, rest₂) = bind-Runs rest₁ in
      let (_, db₃, h₃, rest₃) = bind-Runs rest₂ in
      let (_, db₄, h₄, h₅) = bind-Runs rest₃ in
      let e₁ = unless_any-IsFilled p users (λ d. d.users) _ s.users h₁ in
      let s₁ : IsSeeded db₁ = subst IsSeeded (sym e₁) s in
      let e₂ = unless_any-IsFilled p (schema reservoirs) (λ d. d.reservoirs) _ s₁.reservoirs h₂ in
      let s₂ : IsSeeded db₂ = subst IsSeeded (sym e₂) s₁ in
      let e₃ = unless_any-IsFilled p (schema gates) (λ d. d.gates) _ s₂.gates h₃ in
      let s₃ : IsSeeded db₃ = subst IsSeeded (sym e₃) s₂ in
      let e₄ = unless_any-IsFilled p (schema directives) (λ d. d.directives) _ s₃.directives h₄ in
      let s₄ : IsSeeded db₄ = subst IsSeeded (sym e₄) s₃ in
      let e₅ =
        unless_any-IsFilled p (schema confirmations) (λ d. d.confirmations) _ s₄.confirmations h₅ in
      e₅ ∙ e₄ ∙ e₃ ∙ e₂ ∙ e₁

-- After a successful start every seeded table has a live row, and a later successful start, at another
-- time and with another configuration, leaves the database exactly as it is.
pub seed_once :
    (p : Platform) (ctx later : Context) (hash rehash : String → Result String) (c d : Config)
    {db db' db'' : Db} {u v : Unit {0}}
    → Runs (seed p ctx hash c) db u db'
    → Runs (seed p later rehash d) db' v db''
    → IsSeeded db' × (db'' ≡ db')
seed_once p ctx later hash rehash c d h again =
    let s = seed-IsSeeded p ctx hash c h in (s, again_unchanged p later rehash d s again)
