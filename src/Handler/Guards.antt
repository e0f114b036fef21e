-- ===== src/Handler/Guards.antt =====
-- What is known of a caller that the middleware let through to a handler.
use gb_516_hydropower_gate_d.Prelude.{
  ◌≡◌, ◌⊎◌, inl, inr, refl, String, true, [], ◌∷◌, string_eq, arith, eq_iff, Bool-cases, ap, sym,
}
use gb_516_hydropower_gate_d.Text.{trim_space}
use gb_516_hydropower_gate_d.Constants.{contains}
use gb_516_hydropower_gate_d.Repository.{Platform, Db}
use gb_516_hydropower_gate_d.Service.Common.{Caller}
use gb_516_hydropower_gate_d.Middleware.Auth.{
  Principal, Denial, Tokens, authenticate, require_roles,
}
use gb_516_hydropower_gate_d.Middleware.Auth.Laws.{IsCurrent, authenticate-IsCurrent}
use gb_516_hydropower_gate_d.System.Requests.{
  Request, create_reservoir, update_reservoir, move_reservoir, delete_reservoir, create_gate,
  update_gate, move_gate, delete_gate, create_directive, update_directive, move_directive,
  delete_directive, create_confirmation, update_confirmation, move_confirmation,
  delete_confirmation,
}
use gb_516_hydropower_gate_d.Handler.{route_roles, admitted, authorize}

abbrev Working : String → Type 0
Working role = (role ≡ "operator") ⊎ (role ≡ "reviewer") ⊎ (role ≡ "admin")

one : (role : String) → contains ("admin" ∷ []) role ≡ true → Working role
one role h = ground (arith, eq_iff "admin" role)

two : (role : String) → contains ("operator" ∷ "admin" ∷ []) role ≡ true → Working role
two role h = ground (arith, eq_iff "operator" role, eq_iff "admin" role)

three :
    (role : String) → contains ("operator" ∷ "reviewer" ∷ "admin" ∷ []) role ≡ true → Working role
three role h = ground (arith, eq_iff "operator" role, eq_iff "reviewer" role, eq_iff "admin" role)

inr-inj : {x y : Caller} → ◌≡◌ {A = Denial ⊎ Caller} (inr x) (inr y) → x ≡ y
inr-inj h = ground arith

-- A role that a route lets through is not that of a viewer, and not an unknown one.
route_working :
    (request : Request) (role : String)
    → contains (route_roles request) role ≡ true
    → (role ≡ "operator") ⊎ (role ≡ "reviewer") ⊎ (role ≡ "admin")
route_working (create_reservoir input) role h = two role h
route_working (update_reservoir id input) role h = two role h
route_working (move_reservoir id input) role h = two role h
route_working (delete_reservoir id) role h = one role h
route_working (create_gate input) role h = two role h
route_working (update_gate id input) role h = two role h
route_working (move_gate id input) role h = two role h
route_working (delete_gate id) role h = one role h
route_working (create_directive input) role h = two role h
route_working (update_directive id input) role h = two role h
route_working (move_directive id input) role h = three role h
route_working (delete_directive id) role h = one role h
route_working (create_confirmation input) role h = two role h
route_working (update_confirmation id input) role h = two role h
route_working (move_confirmation id input) role h = two role h
route_working (delete_confirmation id) role h = one role h

-- The principal behind a caller, and what the route knows of it.
pub record IsGuarded (p : Platform) (db : Db) (request : Request) (who : Caller) : Type 0 where
  pub principal : Principal
  pub current : IsCurrent p db principal
  pub actor : who.actor ≡ trim_space principal.username
  pub role : who.role ≡ trim_space principal.role
  pub working :
      (principal.role ≡ "operator") ⊎ (principal.role ≡ "reviewer") ⊎ (principal.role ≡ "admin")
  pub route : contains (route_roles request) principal.role ≡ true

admitted-IsGuarded :
    (p : Platform) (db : Db) (request : Request) (request_id : String) (x : Denial ⊎ Principal)
    {who : Caller}
    → ((principal : Principal) → x ≡ inr principal → IsCurrent p db principal)
    → admitted request request_id x ≡ inr who
    → IsGuarded p db request who
unfolding require_roles
admitted-IsGuarded p db request request_id (inl denial) k h = cc
admitted-IsGuarded p db request request_id (inr principal) {who} k h =
    elim (Bool-cases (contains (route_roles request) principal.role)) [
      | inl passed ↦
          (let e = inr-inj (rw passed at h) in
            record {
              principal = principal;
              current = k principal refl;
              actor = ap (λ (x : Caller). x.actor) (sym e);
              role = ap (λ (x : Caller). x.role) (sym e);
              working = route_working request principal.role passed;
              route = passed;
            })
      | inr stopped ↦ absurd (let r = rw stopped at h in ground (arith, r))
    ]

-- Whatever its token claims: a request that changes state reaches its handler only for an active
-- user of the database whose role there is one that the route lets through; that role is operator,
-- reviewer or admin; and the name and the role that the handler passes on are that user's.
pub authorize-IsGuarded :
    (p : Platform) (tokens : Tokens) (header request_id : String) (db : Db) (request : Request)
    {who : Caller}
    → authorize p tokens header request_id db request ≡ inr who
    → IsGuarded p db request who
unfolding authorize
authorize-IsGuarded p tokens header request_id db request h =
    admitted-IsGuarded p db request request_id (authenticate p tokens header db)
      (λ principal e. authenticate-IsCurrent p tokens header db principal e) h
