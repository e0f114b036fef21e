-- ===== src/Witness/Access.antt =====
-- The theorems on who is let in at a concrete token and user. The token claims another role.
use gb_516_hydropower_gate_d.Prelude.{◌≡◌, refl, true, inr, [], ◌∷◌}
use gb_516_hydropower_gate_d.Text.{trim_space, cut_prefix, decimal}
use gb_516_hydropower_gate_d.Orm.Memory.{memory}
use gb_516_hydropower_gate_d.Model.{User}
use gb_516_hydropower_gate_d.Repository.{Db}
use gb_516_hydropower_gate_d.Repository.Security.{find_user_by_username}
use gb_516_hydropower_gate_d.Middleware.Auth.{
  Principal, Tokens, claimed, authenticate, require_roles,
}
use gb_516_hydropower_gate_d.Middleware.Auth.Laws.{IsCurrent, authenticate-IsCurrent}
use gb_516_hydropower_gate_d.System.Requests.{Request, move_directive}
use gb_516_hydropower_gate_d.Handler.{authorize}
use gb_516_hydropower_gate_d.Handler.Guards.{IsGuarded, authorize-IsGuarded}
use gb_516_hydropower_gate_d.Witness.Data.{platform, caller, to_status, database}

abbrev carl : User
carl = record {
  id = 17;
  username = "carl";
  display_name = "Carl";
  password_hash = "";
  role = "operator";
  active = true;
  created_at = 1;
  updated_at = 1;
}

abbrev staffed : Db
staffed = record (database "closed" "approved" "pending") { users = carl ∷ [] }

abbrev tokens : Tokens
tokens = record {
  secret = "secret";
  issuer = "dispatch";
  parse = λ secret issuer raw.
      claimed (("sub", "17") ∷ ("username", "carl") ∷ ("name", "C") ∷ ("role", "admin") ∷ []);
}

abbrev principal : Principal
principal = record { subject = "17"; username = "carl"; display_name = "Carl"; role = "operator" }

abbrev start : Request
start = move_directive 1 (to_status "executing" 3)

let_in : authenticate platform tokens "Bearer t" staffed ≡ inr principal
unfolding authenticate trim_space cut_prefix decimal find_user_by_username memory
let_in = refl

let_through :
    authorize platform tokens "Bearer t" "request-1" staffed start ≡ inr (caller "carl" "operator")
unfolding authorize require_roles authenticate trim_space cut_prefix decimal find_user_by_username
    memory
let_through = refl

authenticate-IsCurrent_example : IsCurrent platform staffed principal
authenticate-IsCurrent_example =
    authenticate-IsCurrent platform tokens "Bearer t" staffed principal let_in

authorize-IsGuarded_example : IsGuarded platform staffed start (caller "carl" "operator")
authorize-IsGuarded_example =
    authorize-IsGuarded platform tokens "Bearer t" "request-1" staffed start let_through
