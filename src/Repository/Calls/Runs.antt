-- ===== src/Repository/Calls/Runs.antt =====
-- Inversion of a successful run, part by part, and atomicity of transactions.
use gb_516_hydropower_gate_d.Prelude.{◌≡◌, refl, Bool, true, false, inl, inr, Bool-cases, arith}
use gb_516_hydropower_gate_d.Failure.{Error, Result, ok, err}
use gb_516_hydropower_gate_d.Repository.Database.{
  Platform, Db, Context, Exec, continue, pure, ask, check, ◌>>=◌, settle, transaction,
  within_transaction,
}

-- `m`, run on `db`, returns `a` and leaves `db'`.
pub record Runs {A : Type 0} (m : Exec A) (db : Db) (a : A) (db' : Db) : Type 0 where
  pub run : m db ≡ (ok a, db')

-- `m`, run on `db`, fails with `e` and leaves `db'`.
pub record Fails {A : Type 0} (m : Exec A) (db : Db) (e : Error) (db' : Db) : Type 0 where
  pub run : m db ≡ (err e, db')

module _ {A B : Type 0} where
  continue-eq-ok :
      (r : Result A) (f : A → Exec B) (db : Db) {b : B} {db' : Db}
      → continue r f db ≡ (ok b, db')
      → (a : A) × (r ≡ ok a) × (f a db ≡ (ok b, db'))
  continue-eq-ok (ok a) f db h = (a, refl, h)
  continue-eq-ok (err e) f db h = absurd (ground arith)

  pub bind-Runs :
      {m : Exec A} {f : A → Exec B} {db db' : Db} {b : B}
      → Runs (m >>= f) db b db'
      → (a : A) × (db₁ : Db) × Runs m db a db₁ × Runs (f a) db₁ b db'
  unfolding ◌>>=◌
  bind-Runs {m} {f} {db} h =
      let (a, r, rest) = continue-eq-ok (m db).0 f (m db).1 h.run in
      (a, (m db).1, record { run = λ i. (r i, (m db).1) }, record { run = rest })

  pub ask-Runs :
      (g : Db → Result A) {f : A → Exec B} {db db' : Db} {b : B}
      → Runs (ask g >>= f) db b db'
      → (a : A) × (g db ≡ ok a) × Runs (f a) db b db'
  unfolding ◌>>=◌
  ask-Runs g {f} {db} h =
      let (a, r, rest) = continue-eq-ok (g db) f db h.run in (a, r, record { run = rest })

module _ {B : Type 0} where
  pub check-Runs :
      (c : Bool) (e : Error) (f : Unit {0} → Exec B) {db db' : Db} {b : B}
      → Runs (check c e >>= f) db b db'
      → (c ≡ true) × Runs (f tt) db b db'
  unfolding ◌>>=◌
  check-Runs true e f h = (refl, record { run = h.run })
  check-Runs false e f h = absurd (ground arith)

pub pure-Runs : {A : Type 0} {a b : A} {db db' : Db} → Runs (pure a) db b db' → (a ≡ b) × (db ≡ db')
unfolding pure
pure-Runs h = ground arith

pub asks-Runs :
    {A : Type 0} (g : Db → Result A) {db db' : Db} {a : A}
    → Runs (ask g) db a db'
    → (g db ≡ ok a) × (db ≡ db')
unfolding ask
asks-Runs g h = ground arith

module _ {A : Type 0} where
  settle-Runs :
      (p : Platform) (r : Result A) (after before : Db) {a : A} {db' : Db}
      → settle p r after before ≡ (ok a, db')
      → ◌≡◌ {A = Result A × Db} (r, after) (ok a, db')
  settle-Runs p r after before h = ground arith

  settle-Fails :
      (p : Platform) (r : Result A) (after before : Db) {e : Error} {db' : Db}
      → settle p r after before ≡ (err e, db')
      → db' ≡ before
  settle-Fails p r after before h = ground arith

  module _ (p : Platform) where
    pub transaction-Runs :
        (fn : Exec A) {db db' : Db} {a : A} → Runs (transaction p fn) db a db' → Runs fn db a db'
    unfolding transaction
    transaction-Runs fn {db} h = record {
      run = ground (arith, h.run, settle-Runs p (fn db).0 (fn db).1 db);
    }

    -- What a failed transaction leaves is what it found.
    pub transaction-Fails :
        (fn : Exec A) {db db' : Db} {e : Error} → Fails (transaction p fn) db e db' → db' ≡ db
    unfolding transaction
    transaction-Fails fn {db} h = ground (arith, h.run, settle-Fails p (fn db).0 (fn db).1 db)

    module _ (ctx : Context) (fn : Context → Exec A) {db db' : Db} where
      pub within-Runs :
          {a : A}
          → Runs (within_transaction p ctx fn) db a db'
          → Runs (fn (record ctx { in_transaction = true })) db a db'
      unfolding within_transaction
      within-Runs h = elim (Bool-cases ctx.in_transaction) [
        | inl nested ↦ record { run = rw nested at h.run }
        | inr outer ↦
            transaction-Runs (fn (record ctx { in_transaction = true }))
              (record { run = rw outer at h.run })
      ]

      pub within-Fails :
          {e : Error}
          → ctx.in_transaction ≡ false
          → Fails (within_transaction p ctx fn) db e db'
          → db' ≡ db
      unfolding within_transaction
      within-Fails outer h =
          transaction-Fails (fn (record ctx { in_transaction = true }))
            (record { run = rw outer at h.run })
