-- ===== src/Repository/Calls/Keeps.antt =====
-- Predicates on the database that a call keeps, whether it succeeds or fails: one rule for each
-- way to build a call.
use gb_516_hydropower_gate_d.Prelude.{◌≡◌, refl, Bool, true, false, if◌then◌else◌}
use gb_516_hydropower_gate_d.Failure.{Error, Result, ok, err}
use gb_516_hydropower_gate_d.Orm.{answered, failed, from_answer, Answer}
use gb_516_hydropower_gate_d.Repository.Database.{
  Platform, Db, Context, Exec, continue, pure, ask, check, ◌>>=◌, settle, transaction,
  within_transaction,
}
use gb_516_hydropower_gate_d.Repository.Calls.Runs.{Runs}

pub record Keeps {A : Type 0} (P : Db → Type 0) (m : Exec A) : Type 0 where
  pub at : (db : Db) → P db → P (m db).1

module _ {A : Type 0} (P : Db → Type 0) where
  pub Keeps-pure : (a : A) → Keeps P (pure a)
  unfolding pure
  Keeps-pure a = record { at = λ db h. h }

  pub Keeps-ask : (g : Db → Result A) → Keeps P (ask g)
  unfolding ask
  Keeps-ask g = record { at = λ db h. h }

  pub Keeps-if : (b : Bool) (m n : Exec A) → Keeps P m → Keeps P n → Keeps P (if b then m else n)
  Keeps-if true m n km kn = km
  Keeps-if false m n km kn = kn

module _ {A B : Type 0} (P : Db → Type 0) where
  Keeps-continue :
      (r : Result A) (f : A → Exec B) (db : Db)
      → ((a : A) → r ≡ ok a → P (f a db).1)
      → P db
      → P (continue r f db).1
  Keeps-continue (ok a) f db kf h = kf a refl
  Keeps-continue (err e) f db kf h = h

  pub Keeps-bind :
      (m : Exec A) (f : A → Exec B) → Keeps P m → ((a : A) → Keeps P (f a)) → Keeps P (m >>= f)
  unfolding ◌>>=◌
  Keeps-bind m f km kf = record {
    at = λ db h.
        Keeps-continue (m db).0 f (m db).1 (λ a _. (kf a).at (m db).1 (km.at db h)) (km.at db h);
  }

  -- What is read from a database that meets `P` has a property that the rest may use.
  pub Keeps-read :
      (Q : A → Type 0) (g : Db → Result A) (f : A → Exec B)
      → ((db : Db) (a : A) → P db → g db ≡ ok a → Q a)
      → ((a : A) → Q a → Keeps P (f a))
      → Keeps P (ask g >>= f)
  unfolding ◌>>=◌
  Keeps-read Q g f found kf = record {
    at = λ db h. Keeps-continue (g db) f db (λ a e. (kf a (found db a h e)).at db h) h;
  }

  -- What a successful first part says of its result is at hand in the rest.
  pub Keeps-after :
      (R : A → Type 0) (m : Exec A) (f : A → Exec B)
      → Keeps P m
      → ((db db' : Db) (a : A) → P db → Runs m db a db' → R a)
      → ((a : A) → R a → Keeps P (f a))
      → Keeps P (m >>= f)
  unfolding ◌>>=◌
  Keeps-after R m f km found kf = record {
    at = λ db h.
        Keeps-continue (m db).0 f (m db).1
          (λ a e.
            (kf a (found db (m db).1 a h (record { run = λ i. (e i, (m db).1) }))).at (m db).1
              (km.at db h))
          (km.at db h);
  }

module _ {B : Type 0} (P : Db → Type 0) where
  -- The rest may use that the check passed.
  pub Keeps-check :
      (c : Bool) (e : Error) (f : Unit {0} → Exec B)
      → (c ≡ true → Keeps P (f tt))
      → Keeps P (check c e >>= f)
  unfolding ◌>>=◌
  Keeps-check true e f kf = record { at = λ db h. (kf refl).at db h }
  Keeps-check false e f kf = record { at = λ db h. h }

module _ {A : Type 0} (P : Db → Type 0) (p : Platform) where
  Keeps-settle :
      (r : Result A) (after before : Db) → P after → P before → P (settle p r after before).1
  Keeps-settle (err e) after before ha hb = hb
  Keeps-settle (ok a) after before ha hb = go (p.gorm.commit Db after)
    where
      go :
          (x : Answer (Unit {0}))
          → P
              (let y : Result A × Db = elim (from_answer x) [
                | ok _ ↦ (ok a, after)
                | err e ↦ (err e, before)
              ] in
                y).1
      go (answered _) = ha
      go (failed n) = hb

  Keeps-begun :
      (x : Result (Unit {0})) (m : Exec A) (db : Db)
      → P (m db).1
      → P db
      → P
          (let y : Result A × Db = elim x [
            | ok _ ↦ settle p (m db).0 (m db).1 db
            | err e ↦ (err e, db)
          ] in
            y).1
  Keeps-begun (ok _) m db hm h = Keeps-settle (m db).0 (m db).1 db hm h
  Keeps-begun (err e) m db hm h = h

  pub Keeps-transaction : (m : Exec A) → Keeps P m → Keeps P (transaction p m)
  unfolding transaction
  Keeps-transaction m km = record {
    at = λ db h. Keeps-begun (from_answer (p.gorm.begin Db db)) m db (km.at db h) h;
  }

  pub Keeps-within :
      (ctx : Context) (fn : Context → Exec A)
      → ((c : Context) → Keeps P (fn c))
      → Keeps P (within_transaction p ctx fn)
  unfolding within_transaction
  Keeps-within ctx fn kf =
      Keeps-if P ctx.in_transaction (fn ctx)
        (transaction p (fn (record ctx { in_transaction = true }))) (kf ctx)
        (Keeps-transaction (fn (record ctx { in_transaction = true })) (kf _))

pub ruleset keeps_rules =
    (Keeps-pure, Keeps-ask, Keeps-if, Keeps-bind, Keeps-transaction, Keeps-within)
