-- ===== src/Startup/Fill.antt =====
-- The steps of Seed: each fills a table, or finds it filled and does nothing.
use gb_516_hydropower_gate_d.Prelude.{
  ℕ, ◌≡◌, ◌≢◌, ◌⊎◌, refl, sym, arith, String, Bool, true, false, List, [], ◌∷◌, ◌++◌, count_if, ltb,
  if◌then◌else◌, inl, inr,
}
use gb_516_hydropower_gate_d.Failure.{Result, ok, err, ◌and_then◌}
use gb_516_hydropower_gate_d.Model.{User}
use gb_516_hydropower_gate_d.Orm.{Schema, scoped, Answer, answered, failed, from_answer, IsInserted}
use gb_516_hydropower_gate_d.Repository.{Platform, Db, Exec, pure}
use gb_516_hydropower_gate_d.Repository.Calls.Runs.{Runs, ask-Runs, pure-Runs}
use gb_516_hydropower_gate_d.Startup.Records.{Account}
use gb_516_hydropower_gate_d.Startup.Seed.{all_stored, unless_any, hash_accounts, new_user}

-- The table has a live row.
pub record IsFilled {T : Type 0} (s : Schema T) (rows : List T) : Type 0 where
  pub live : count_if (scoped s (λ row. true)) rows ≢ 0

pub all_stored-Runs :
    {T : Type 0} (put : List T → Db → Db) (x : Answer (List T × List T)) {db db' : Db}
    {created : List T}
    → all_stored put x db ≡ (ok created, db')
    → (rows : List T) × (x ≡ answered (created, rows)) × (db' ≡ put rows db)
all_stored-Runs put (answered (cs, rows)) h = (rows, ground arith, ground arith)
all_stored-Runs put (failed n) h = absurd (ground arith)

count_append-live :
    {T : Type 0} (q : T → Bool) (xs ys : List T) (y : T)
    → q y ≡ true
    → count_if q (xs ++ y ∷ ys) ≢ 0
count_append-live q [] ys y h = ground (arith, h)
count_append-live q (x ∷ xs) ys y h = ground (arith, count_append-live q xs ys y h)

-- A slice that is not empty and whose first row is stored alive fills its table.
pub inserted-IsFilled :
    {T : Type 0} (s : Schema T) (now : ℕ) (rows created : List T) (item : T) (items : List T)
    → ((k : ℕ) → s.is_live (s.stamp k now item) ≡ true)
    → IsInserted s now rows (item ∷ items) created
    → IsFilled s (rows ++ created)
inserted-IsFilled s now rows [] item items live h = absurd h
inserted-IsFilled s now rows (c ∷ cs) item items live ((k, _, _, e), _) = record {
  live = count_append-live (scoped s (λ row. true)) rows cs c (rw e (ground (arith, live k)));
}

from_answer-eq-ok : {A : Type 0} (x : Answer A) {a : A} → from_answer x ≡ ok a → x ≡ answered a
from_answer-eq-ok (answered y) h = ground arith
from_answer-eq-ok (failed n) h = cc

if-Runs :
    (b : Bool) (m n : Exec (Unit {0})) {db db' : Db} {u : Unit {0}}
    → Runs (if b then m else n) db u db'
    → ((b ≡ true) × Runs m db u db') ⊎ ((b ≡ false) × Runs n db u db')
if-Runs true m n h = inl (refl, h)
if-Runs false m n h = inr (refl, h)

module _ (p : Platform) {T : Type 0} (s : Schema T) (rows : Db → List T) where
  -- A step of Seed either finds a live row and does nothing, or finds none and fills the table.
  pub unless_any-Runs :
      (fill : Exec (Unit {0})) {db db' : Db} {u : Unit {0}}
      → Runs (unless_any (λ d. p.gorm.count T s (λ row. true) (rows d)) fill) db u db'
      → (IsFilled s (rows db) × (db' ≡ db)) ⊎ Runs fill db u db'
  unfolding unless_any
  unless_any-Runs fill {db} h =
      let (n, e, rest) = ask-Runs (λ d. from_answer (p.gorm.count T s (λ row. true) (rows d))) h in
      let n_is = p.gorm.count_counts T s (λ row. true) (rows db) n (from_answer-eq-ok _ e) in
      elim (if-Runs (ltb 0 n) (pure tt) fill rest) [
        | inl (some_rows, same) ↦
            inl (record { live = λ z. ground (arith, some_rows, n_is, z) }, sym (pure-Runs same).1)
        | inr (no_rows, filled) ↦ inr filled
      ]

  -- On a filled table it does nothing.
  pub unless_any-IsFilled :
      (fill : Exec (Unit {0})) {db db' : Db} {u : Unit {0}}
      → IsFilled s (rows db)
      → Runs (unless_any (λ d. p.gorm.count T s (λ row. true) (rows d)) fill) db u db'
      → db' ≡ db
  unfolding unless_any
  unless_any-IsFilled fill {db} filled h =
      let (n, e, rest) = ask-Runs (λ d. from_answer (p.gorm.count T s (λ row. true) (rows d))) h in
      let n_is = p.gorm.count_counts T s (λ row. true) (rows db) n (from_answer-eq-ok _ e) in
      elim (if-Runs (ltb 0 n) (pure tt) fill rest) [
        | inl (_, same) ↦ sym (pure-Runs same).1
        | inr (no_rows, _) ↦ absurd (filled.live (ground (arith, no_rows, n_is)))
      ]

ok_inj : {A : Type 0} {x y : A} → ok x ≡ ok y → x ≡ y
ok_inj h = ground arith

and_then-eq-ok :
    {A B : Type 0} (r : Result A) (f : A → Result B) {b : B}
    → (r and_then f) ≡ ok b
    → (a : A) × (r ≡ ok a) × (f a ≡ ok b)
and_then-eq-ok (ok a) f h = (a, refl, h)
and_then-eq-ok (err e) f h = absurd (ground arith)

-- There is an account, so there is a user to create.
pub hashed_first :
    (hash : String → Result String) (a : Account) (rest : List Account) {seeds : List User}
    → hash_accounts hash (a ∷ rest) ≡ ok seeds
    → (first : User) × (others : List User) × (seeds ≡ first ∷ others)
unfolding hash_accounts
hashed_first hash a rest h =
    let (password_hash, _, h₁) =
      and_then-eq-ok (hash a.password)
        (λ x. hash_accounts hash rest and_then λ users. ok (new_user a x ∷ users)) h in
    let (others, _, made) =
      and_then-eq-ok (hash_accounts hash rest) (λ users. ok (new_user a password_hash ∷ users))
        h₁ in
    (new_user a password_hash, others, sym (ok_inj made))
