-- ===== src/Repository/Calls/Atomic.antt =====
-- Calls that leave the database as they found it when they fail, but for the failures that `R`
-- allows: one rule for each way to build a call.
use gb_516_hydropower_gate_d.Prelude.{◌≡◌, refl, ◌⊎◌, inl, inr, Bool, true, false, ◌∙◌, arith}
use gb_516_hydropower_gate_d.Failure.{Error, Result, ok, err}
use gb_516_hydropower_gate_d.Repository.Database.{
  Platform, Db, Context, Exec, continue, ask, check, ◌>>=◌, transaction, within_transaction,
}
use gb_516_hydropower_gate_d.Repository.Calls.Runs.{Runs, Fails, within-Fails, transaction-Fails}
use gb_516_hydropower_gate_d.Repository.Calls.Keeps.{Keeps}

pub record Atomic {A : Type 0} (R : Error → Db → Type 0) (m : Exec A) : Type 0 where
  pub at : (db : Db) (e : Error) (db' : Db) → Fails m db e db' → (db' ≡ db) ⊎ R e db'

-- No failure is allowed to leave anything.
abbrev pub Never : Error → Db → Type 0
Never e db = ⊥

module _ {A B : Type 0} where
  continue-eq-err :
      (r : Result A) (f : A → Exec B) (db : Db) {e : Error} {db' : Db}
      → continue r f db ≡ (err e, db')
      → ((r ≡ err e) × (db ≡ db')) ⊎ ((a : A) × (r ≡ ok a) × (f a db ≡ (err e, db')))
  continue-eq-err (ok a) f db h = inr (a, refl, h)
  continue-eq-err (err x) f db h = inl (ground arith, ground arith)

  pub bind-Fails :
      {m : Exec A} {f : A → Exec B} {db db' : Db} {e : Error}
      → Fails (m >>= f) db e db'
      → Fails m db e db' ⊎ ((a : A) × (db₁ : Db) × Runs m db a db₁ × Fails (f a) db₁ e db')
  unfolding ◌>>=◌
  bind-Fails {m} {f} {db} h = elim (continue-eq-err (m db).0 f (m db).1 h.run) [
    | inl (r, s) ↦ inl (record { run = λ i. (r i, s i) })
    | inr (a, r, rest) ↦
        inr (a, (m db).1, record { run = λ i. (r i, (m db).1) }, record { run = rest })
  ]

module _ {A B : Type 0} (R : Error → Db → Type 0) where
  -- A part that writes nothing may stand before an atomic one.
  pub Atomic-read :
      (m : Exec A) (f : A → Exec B)
      → ((P : Db → Type 0) → Keeps P m)
      → ((a : A) → Atomic R (f a))
      → Atomic R (m >>= f)
  Atomic-read m f still af = record { at = λ db e db' h. go db e db' (bind-Fails h) }
    where
      same : (db : Db) → (m db).1 ≡ db
      same db = (still (λ x. x ≡ db)).at db refl

      go :
          (db : Db) (e : Error) (db' : Db)
          → Fails m db e db' ⊎ ((a : A) × (db₁ : Db) × Runs m db a db₁ × Fails (f a) db₁ e db')
          → (db' ≡ db) ⊎ R e db'
      go db e db' (inl h) = inl (ground (arith, h.run, same db))
      go db e db' (inr (a, db₁, r, h)) =
          let s : db₁ ≡ db = ground (arith, r.run, same db) in
          elim ((af a).at db₁ e db' h) [ inl t ↦ inl (t ∙ s) | inr x ↦ inr x ]

  -- What follows an atomic part may fail only in a way that is allowed.
  pub Atomic-then :
      (m : Exec A) (f : A → Exec B)
      → Atomic Never m
      → ((a : A) (db : Db) (e : Error) (db' : Db) → Fails (f a) db e db' → R e db')
      → Atomic R (m >>= f)
  Atomic-then m f am rest = record { at = λ db e db' h. go db e db' (bind-Fails h) }
    where
      go :
          (db : Db) (e : Error) (db' : Db)
          → Fails m db e db' ⊎ ((a : A) × (db₁ : Db) × Runs m db a db₁ × Fails (f a) db₁ e db')
          → (db' ≡ db) ⊎ R e db'
      go db e db' (inl h) = elim (am.at db e db' h) [ inl s ↦ inl s | inr x ↦ absurd x ]
      go db e db' (inr (a, db₁, r, h)) = inr (rest a db₁ e db' h)

module _ {B : Type 0} (R : Error → Db → Type 0) where
  pub Atomic-check :
      (c : Bool) (e : Error) (f : Unit {0} → Exec B) → Atomic R (f tt) → Atomic R (check c e >>= f)
  unfolding ◌>>=◌
  Atomic-check true e f af = record { at = λ db x db' h. af.at db x db' (record { run = h.run }) }
  Atomic-check false e f af = record { at = λ db x db' h. inl (ground (arith, h.run)) }

  pub Atomic-within :
      (p : Platform) (ctx : Context) (fn : Context → Exec B)
      → ctx.in_transaction ≡ false
      → Atomic R (within_transaction p ctx fn)
  Atomic-within p ctx fn outer = record { at = λ db e db' h. inl (within-Fails p ctx fn outer h) }

  pub Atomic-transaction : (p : Platform) (fn : Exec B) → Atomic R (transaction p fn)
  Atomic-transaction p fn = record { at = λ db e db' h. inl (transaction-Fails p fn h) }

pub ask-Fails :
    {A : Type 0} (g : Db → Result A) (db : Db) (e : Error) (db' : Db)
    → Fails (ask g) db e db'
    → g db' ≡ err e
unfolding ask
ask-Fails g db e db' h = ground (arith, h.run)
