-- ===== src/Middleware/Auth/Laws.antt =====
-- What a request that was let in is known to be.
use gb_516_hydropower_gate_d.Prelude.{
  ◌≡◌, ◌≢◌, refl, String, Bool, true, false, ◌||◌, not, ◌==◌, ◌!=◌, nat_eq, string_eq, Option, none,
  some, ◌⊎◌, inl, inr, arith, eq_iff, subst, sym, ap, Bool-cases,
}
use gb_516_hydropower_gate_d.Text.{trim_space, cut_prefix, decimal}
use gb_516_hydropower_gate_d.Failure.{Result, ok, err}
use gb_516_hydropower_gate_d.Model.{User}
use gb_516_hydropower_gate_d.Repository.{Platform, Db}
use gb_516_hydropower_gate_d.Repository.Security.{find_user_by_username}
use gb_516_hydropower_gate_d.Middleware.Auth.{
  Principal, Denial, Parsed, refused, other_claims, claimed, Tokens, role_rank, principal_of,
  resolved, accepted, bearer, authenticate,
}

-- The user that the principal stands for, as the database has it now.
pub record IsCurrent (p : Platform) (db : Db) (principal : Principal) : Type 0 where
  pub user : User
  pub found : find_user_by_username p principal.username db ≡ ok user
  pub active : user.active ≡ true
  pub subject : decimal user.id ≡ principal.subject
  pub role : principal.role ≡ user.role
  pub known_role : role_rank user.role ≢ 0

inr-inj : {x y : Principal} → ◌≡◌ {A = Denial ⊎ Principal} (inr x) (inr y) → x ≡ y
inr-inj h = ground arith

same_subject :
    (number subject : String) (b c : Bool)
    → (number != subject || b || c) ≡ false
    → (number == subject) ≡ true
same_subject number subject b c h = ground (arith, h)

known : (role : String) (a b : Bool) → (a || b || role_rank role == 0) ≡ false → role_rank role ≢ 0
known role a b h z = ground (arith, h, z)

resolved-IsCurrent :
    (p : Platform) (db : Db) (claimed_one principal : Principal) (r : Result User)
    → find_user_by_username p claimed_one.username db ≡ r
    → resolved claimed_one r ≡ inr principal
    → IsCurrent p db principal
resolved-IsCurrent p db c principal (err e) f h = cc
resolved-IsCurrent p db c principal (ok user) f h =
    elim (Bool-cases
      (decimal user.id != c.subject || not user.active || role_rank user.role == 0)) [
        | inl refused_one ↦ absurd (let r = rw refused_one at h in ground (arith, r))
        | inr let_in ↦
            (let e = inr-inj (rw let_in at h) in
              record {
                user = user;
                found =
                    subst (λ (x : Principal). find_user_by_username p x.username db ≡ ok user) e f;
                active = ground (arith, let_in);
                subject =
                    subst (λ (x : Principal). decimal user.id ≡ x.subject) e
                      ((eq_iff (decimal user.id) c.subject).0 (
                        same_subject (decimal user.id) c.subject (not user.active)
                          (role_rank user.role == 0) let_in));
                role = ap (λ (x : Principal). x.role) (sym e);
                known_role =
                    λ z. known user.role (decimal user.id != c.subject) (not user.active) let_in z;
              })
      ]

accepted-IsCurrent :
    (p : Platform) (db : Db) (principal : Principal) (x : Parsed)
    → accepted p db x ≡ inr principal
    → IsCurrent p db principal
accepted-IsCurrent p db principal refused h = cc
accepted-IsCurrent p db principal other_claims h = cc
accepted-IsCurrent p db principal (claimed claims) h =
    let c = principal_of claims in
    elim (Bool-cases (c.subject == "" || c.username == "" || role_rank c.role == 0)) [
      | inl bare ↦ absurd (let r = rw bare at h in ground (arith, r))
      | inr full ↦ resolved-IsCurrent p db c principal _ refl (rw full at h)
    ]

bearer-IsCurrent :
    (p : Platform) (db : Db) (tokens : Tokens) (principal : Principal) (raw : Option String)
    → bearer p db tokens raw ≡ inr principal
    → IsCurrent p db principal
bearer-IsCurrent p db tokens principal none h = cc
bearer-IsCurrent p db tokens principal (some raw) h =
    accepted-IsCurrent p db principal (tokens.parse tokens.secret tokens.issuer (trim_space raw)) h

-- Whatever a token claims, a request that is let in has a principal that stands for a user of the
-- database: one found under its name, whose key is its subject, that is active, and whose role
-- there is a known one and is the principal's.
pub authenticate-IsCurrent :
    (p : Platform) (tokens : Tokens) (header : String) (db : Db) (principal : Principal)
    → authenticate p tokens header db ≡ inr principal
    → IsCurrent p db principal
unfolding authenticate
authenticate-IsCurrent p tokens header db principal h =
    bearer-IsCurrent p db tokens principal (cut_prefix (trim_space header) "Bearer ") h
