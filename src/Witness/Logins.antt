-- ===== src/Witness/Logins.antt =====
-- The theorem on failed logins at a concrete user.
use gb_516_hydropower_gate_d.Prelude.{◌≡◌, ◌⊎◌, refl, true, false, some, [], ◌∷◌, pos}
use gb_516_hydropower_gate_d.Failure.{err, unauthorized, signing_failed}
use gb_516_hydropower_gate_d.Orm.Memory.{memory}
use gb_516_hydropower_gate_d.Model.{User}
use gb_516_hydropower_gate_d.Repository.{Db}
use gb_516_hydropower_gate_d.Repository.Security.{find_user_by_username}
use gb_516_hydropower_gate_d.Service.Login.{LoginRequest, Crypto, login}
use gb_516_hydropower_gate_d.Service.Login.Laws.{login-errors}
use gb_516_hydropower_gate_d.Witness.Data.{platform, context, database}

abbrev retired : User
retired = record {
  id = 17;
  username = "carl";
  display_name = "Carl";
  password_hash = "";
  role = "operator";
  active = false;
  created_at = 1;
  updated_at = 1;
}

abbrev staffed : Db
staffed = record (database "closed" "approved" "pending") { users = retired ∷ [] }

abbrev crypto : Crypto
crypto = record {
  matches = λ hash password. true;
  sign = λ secret claims. some "token";
  jwt_secret = "secret";
  app_name = "dispatch";
  token_ttl = pos 60000000000;
  seconds = λ d. d;
}

abbrev attempt : LoginRequest
attempt = record { username = "carl"; password = "password" }

refused_login : login platform crypto context attempt staffed ≡ err unauthorized
unfolding login find_user_by_username memory
refused_login = refl

login-errors_example : (unauthorized ≡ unauthorized) ⊎ (unauthorized ≡ signing_failed)
login-errors_example = login-errors platform crypto context attempt staffed refused_login
