-- ===== src/Service/Login/Laws.antt =====
-- Who can log in, and with which errors others are refused.
use gb_516_hydropower_gate_d.Prelude.{
  ◌≡◌, ◌⊎◌, inl, inr, refl, String, true, ◌&&◌, ◌==◌, string_eq, Option, none, some, arith, eq_iff,
  find?_passes, sym, Bool-cases,
}
use gb_516_hydropower_gate_d.Failure.{Error, Result, ok, err, unauthorized, signing_failed}
use gb_516_hydropower_gate_d.Model.{User}
use gb_516_hydropower_gate_d.Orm.{Answer, answered, failed, from_first, scoped}
use gb_516_hydropower_gate_d.Repository.{Platform, Db, Context, users}
use gb_516_hydropower_gate_d.Repository.Security.{find_user_by_username}
use gb_516_hydropower_gate_d.Service.Login.{LoginRequest, Crypto, signed, identified, login}

first-eq-ok :
    (x : Answer (Option User)) {user : User} → from_first x ≡ ok user → x ≡ answered (some user)
first-eq-ok (answered none) h = cc
first-eq-ok (answered (some u)) h = ground arith
first-eq-ok (failed n) h = cc

-- The user that is found is active and has the name.
pub find_user-passes :
    (p : Platform) (name : String) (db : Db) {user : User}
    → find_user_by_username p name db ≡ ok user
    → (user.active ≡ true) × (user.username ≡ name)
unfolding find_user_by_username
find_user-passes p name db {user} h =
    let q = λ (row : User). row.username == name && row.active in
    let found = sym (p.gorm.first_found User users q db.users _ (first-eq-ok _ h)) in
    let passes = find?_passes (scoped users q) db.users found in
    (ground (arith, passes), ground (arith, passes, eq_iff user.username name))

signed_error :
    (c : Crypto) (user : User) (x : Option String) {e : Error}
    → signed c user x ≡ err e
    → e ≡ signing_failed
signed_error c user none h = ground arith
signed_error c user (some t) h = absurd (ground arith)

identified_error :
    (c : Crypto) (ctx : Context) (input : LoginRequest) (r : Result User) {e : Error}
    → ((user : User) → r ≡ ok user → user.active ≡ true)
    → identified c ctx input r ≡ err e
    → (e ≡ unauthorized) ⊎ (e ≡ signing_failed)
identified_error c ctx input (err x) k h = inl (ground arith)
identified_error c ctx input (ok user) k h =
    let active = k user refl in
    elim (Bool-cases (c.matches user.password_hash input.password)) [
      | inl right ↦ inr (signed_error c user _ (rw (right, active) at h))
      | inr wrong ↦ (let r = rw wrong at h in inl (ground (arith, r)))
    ]

-- A login fails only as unauthorized or because the token could not be signed, and so never with
-- the error for inactive users.
pub login-errors :
    (p : Platform) (c : Crypto) (ctx : Context) (input : LoginRequest) (db : Db) {e : Error}
    → login p c ctx input db ≡ err e
    → (e ≡ unauthorized) ⊎ (e ≡ signing_failed)
unfolding login
login-errors p c ctx input db h =
    identified_error c ctx input (find_user_by_username p input.username db)
      (λ user f. (find_user-passes p input.username db f).0) h
