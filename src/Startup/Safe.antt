-- ===== src/Startup/Safe.antt =====
-- Starting the backend keeps the two-person rule, and so does whatever is served after it.
use gb_516_hydropower_gate_d.Prelude.{
  ℕ, ◌≡◌, inl, inr, refl, sym, subst, String, false, List, [], ◌∷◌, ◌++◌, ◌==◌, string_eq, arith,
  eq_iff, All, All-append, ltb,
}
use gb_516_hydropower_gate_d.Text.{Unicode, equal_fold}
use gb_516_hydropower_gate_d.Failure.{Result}
use gb_516_hydropower_gate_d.Config.{Config}
use gb_516_hydropower_gate_d.Model.{OperationDirective}
use gb_516_hydropower_gate_d.Orm.{Schema, Answer, answered, failed, IsInserted}
use gb_516_hydropower_gate_d.Repository.{
  Platform, Db, Context, Exec, schema, reservoirs, gates, directives, confirmations,
}
use gb_516_hydropower_gate_d.Repository.Calls.Keeps.{
  Keeps, Keeps-bind, Keeps-ask, Keeps-pure, Keeps-if,
}
use gb_516_hydropower_gate_d.Service.Common.{Caller}
use gb_516_hydropower_gate_d.System.Requests.{Request, serve}
use gb_516_hydropower_gate_d.System.Safety.{
  IsTwoPerson, IsReleased, AllTwoPerson, AllNamed, serve-AllTwoPerson,
}
use gb_516_hydropower_gate_d.Startup.Records.{seed_directives}
use gb_516_hydropower_gate_d.Startup.Seed.{
  all_stored, unless_any, create_users, create_approvals, put_users, put_approvals, seed_users,
  seed_reservoir, seed_gate_unit, seed_operation_directive, seed_execution_confirmation, seed,
}

-- A property of the items of a slice, whatever keys they get, is one of the rows that are stored.
pub All-IsInserted :
    {T : Type 0} (s : Schema T) (now : ℕ) (Q : T → Type 0) (rows items created : List T)
    → IsInserted s now rows items created
    → All (λ item. (k : ℕ) → Q (s.stamp k now item)) items
    → All Q created
All-IsInserted s now Q rows [] [] h good = tt
All-IsInserted s now Q rows [] (c ∷ cs) h good = absurd h
All-IsInserted s now Q rows (i ∷ is) [] h good = absurd h
All-IsInserted s now Q rows (i ∷ is) (c ∷ cs) ((k, _, _, e), h) (first, others) =
    (subst Q (sym e) (first k), All-IsInserted s now Q (rows ++ c ∷ []) is cs h others)

unreleased :
    (status : String)
    → (status == "approved") ≡ false
    → (status == "executing") ≡ false
    → (status == "completed") ≡ false
    → ¬ (IsReleased status)
unreleased status a e c (inl h) = ground (arith, a, eq_iff status "approved", h)
unreleased status a e c (inr (inl h)) = ground (arith, e, eq_iff status "executing", h)
unreleased status a e c (inr (inr h)) = ground (arith, c, eq_iff status "completed", h)

module _ (u : Unicode) where
  -- Of the seeded directives the third is executing: an operator submitted it, and a reviewer approved it.
  seeds-IsTwoPerson :
      (now : ℕ)
      → All
          (λ item. (k : ℕ) → IsTwoPerson u ((schema directives).stamp k now item))
          (seed_directives now)
  unfolding equal_fold
  seeds-IsTwoPerson now = (
    (λ k r. absurd (unreleased "draft" refl refl refl r)),
    ((λ k r. absurd (unreleased "pending" refl refl refl r)), ((λ k r. (refl, refl, refl)), tt)),
  )

module _ (p : Platform) where
  all_stored-keeps :
      {T : Type 0} (P : Db → Type 0) (put : List T → Db → Db) (x : Answer (List T × List T))
      (db : Db)
      → ((created rows : List T) → x ≡ answered (created, rows) → P (put rows db))
      → P db
      → P (all_stored put x db).1
  all_stored-keeps P put (answered (created, rows)) db kept h = kept created rows refl
  all_stored-keeps P put (failed n) db kept h = h

  Keeps-unless_any :
      (P : Db → Type 0) (count : Db → Answer ℕ) (fill : Exec (Unit {0}))
      → Keeps P fill
      → Keeps P (unless_any count fill)
  unfolding unless_any
  Keeps-unless_any P count fill kf =
      Keeps-bind P _ _ (Keeps-ask P _) λ n. Keeps-if P (ltb 0 n) _ _ (Keeps-pure P tt) kf

  -- The two-person rule, which the other tables do not touch.
  abbrev Rule : Db → Type 0
  Rule = AllTwoPerson p.unicode

  seed_users-Keeps :
      (ctx : Context) (hash : String → Result String) (c : Config)
      → Keeps Rule (seed_users p ctx hash c)
  unfolding seed_users create_users
  seed_users-Keeps ctx hash c = Keeps-unless_any Rule _ _ (
      Keeps-bind Rule _ _ (Keeps-ask Rule _) λ seeds.
        Keeps-bind Rule _ _
          (record { at = λ db h. all_stored-keeps Rule put_users _ db (λ created rows e. h) h })
          λ created. Keeps-pure Rule tt)

  seed_reservoir-Keeps : (ctx : Context) → Keeps Rule (seed_reservoir p ctx)
  unfolding seed_reservoir
  seed_reservoir-Keeps ctx = Keeps-unless_any Rule _ _ (
      Keeps-bind Rule _ _
        (record { at = λ db h. all_stored-keeps Rule reservoirs.put _ db (λ created rows e. h) h })
        λ created. Keeps-pure Rule tt)

  seed_gate_unit-Keeps : (ctx : Context) → Keeps Rule (seed_gate_unit p ctx)
  unfolding seed_gate_unit
  seed_gate_unit-Keeps ctx = Keeps-unless_any Rule _ _ (
      Keeps-bind Rule _ _
        (record { at = λ db h. all_stored-keeps Rule gates.put _ db (λ created rows e. h) h })
        λ created. Keeps-pure Rule tt)

  seed_execution_confirmation-Keeps :
      (ctx : Context) → Keeps Rule (seed_execution_confirmation p ctx)
  unfolding seed_execution_confirmation
  seed_execution_confirmation-Keeps ctx = Keeps-unless_any Rule _ _ (
      Keeps-bind Rule _ _
        (record {
          at = λ db h. all_stored-keeps Rule confirmations.put _ db (λ created rows e. h) h;
        })
        λ created. Keeps-pure Rule tt)

  seed_operation_directive-Keeps : (ctx : Context) → Keeps Rule (seed_operation_directive p ctx)
  unfolding seed_operation_directive create_approvals
  seed_operation_directive-Keeps ctx = Keeps-unless_any Rule _ _ (
      Keeps-bind Rule _ _
        (record {
          at = λ db h.
              all_stored-keeps Rule directives.put _ db
                (λ created rows e.
                  let (inserted, appended) =
                    p.gorm.create_all_appends OperationDirective (schema directives) ctx.now
                      (seed_directives ctx.now) db.directives created rows e in
                  subst (All (IsTwoPerson p.unicode)) (sym appended) (
                    All-append (IsTwoPerson p.unicode) db.directives created h (
                      All-IsInserted (schema directives) ctx.now (IsTwoPerson p.unicode)
                        db.directives (seed_directives ctx.now) created inserted
                        (seeds-IsTwoPerson p.unicode ctx.now))))
                h;
        })
        λ items.
          Keeps-bind Rule _ _
            (record {
              at = λ db h. all_stored-keeps Rule put_approvals _ db (λ created rows e. h) h;
            })
            λ filed. Keeps-pure Rule tt)

  seed-Keeps :
      (ctx : Context) (hash : String → Result String) (c : Config) → Keeps Rule (seed p ctx hash c)
  unfolding seed
  seed-Keeps ctx hash c = Keeps-bind Rule _ _ (seed_users-Keeps ctx hash c) λ _.
      Keeps-bind Rule _ _ (seed_reservoir-Keeps ctx) λ _.
        Keeps-bind Rule _ _ (seed_gate_unit-Keeps ctx) λ _.
          Keeps-bind Rule _ _ (seed_operation_directive-Keeps ctx)
            λ _. seed_execution_confirmation-Keeps ctx

  -- Start the backend on a database that keeps the two-person rule, such as an empty one, with any
  -- configuration and any faults of the database, and serve any requests of callers whose names are
  -- not empty: the rule is kept, though
  -- one of the seeded directives is executing from the start.
  pub seed_then_serve-AllTwoPerson :
      (ctx : Context) (hash : String → Result String) (c : Config)
      (requests : List (Context × Caller × Request)) (db : Db)
      → AllNamed requests
      → AllTwoPerson p.unicode db
      → AllTwoPerson p.unicode (serve p requests (seed p ctx hash c db).1)
  seed_then_serve-AllTwoPerson ctx hash c requests db named h =
      serve-AllTwoPerson p requests (seed p ctx hash c db).1 named ((seed-Keeps ctx hash c).at db h)
