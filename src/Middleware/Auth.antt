-- ===== src/Middleware/Auth.antt =====
-- backend/internal/middleware/auth.go: who a request comes from. The parser of tokens
-- (github.com/golang-jwt/jwt) is a parameter.
pub mod Laws
use gb_516_hydropower_gate_d.Prelude.{
  ℕ, String, Bool, ◌||◌, not, ◌==◌, ◌!=◌, nat_eq, string_eq, ltb, Option, none, some, List, [], ◌∷◌,
  ◌⊎◌, inl, inr, if◌then◌else◌,
}
use gb_516_hydropower_gate_d.Text.{trim_space, cut_prefix, decimal}
use gb_516_hydropower_gate_d.Failure.{Result, ok, err}
use gb_516_hydropower_gate_d.Constants.{contains}
use gb_516_hydropower_gate_d.Model.{User}
use gb_516_hydropower_gate_d.Repository.{Platform, Db}
use gb_516_hydropower_gate_d.Repository.Security.{find_user_by_username}

pub record Principal : Type 0 where
  pub subject : String
  pub username : String
  pub display_name : String
  pub role : String

-- The bodies that a refused request is answered with.
pub data Denial : Type 0 where
  missing_token invalid_token invalid_claims incomplete_claims account_unavailable : Denial
  forbidden insufficient_role : Denial

-- A parsed token: refused, with claims of another type, or with those of its claims that are texts.
pub data Parsed : Type 0 where
  refused other_claims : Parsed
  claimed : List (String × String) → Parsed

-- `jwt.Parse` for HS256 with a secret and an issuer, and what was checked of the token.
pub record Tokens : Type 0 where
  pub secret : String
  pub issuer : String
  pub parse : (secret issuer raw : String) → Parsed

abbrev pub role_rank : String → ℕ
role_rank role =
    if role == "viewer"
    then 1
    else if role == "operator"
    then 2
    else if role == "reviewer"
    then 3
    else if role == "admin"
    then 4
    else 0

abbrev pub string_claim : List (String × String) → String → String
string_claim [] key = ""
string_claim ((k, v) ∷ claims) key = if k == key then v else string_claim claims key

abbrev pub principal_of : List (String × String) → Principal
principal_of claims = record {
  subject = string_claim claims "sub";
  username = string_claim claims "username";
  display_name = string_claim claims "name";
  role = string_claim claims "role";
}

abbrev pub resolved : Principal → Result User → Denial ⊎ Principal
resolved principal (err e) = inl account_unavailable
resolved principal (ok user) =
    if decimal user.id != principal.subject || not user.active || role_rank user.role == 0
    then inl account_unavailable
    else inr (record principal { display_name = user.display_name; role = user.role })

abbrev pub accepted : Platform → Db → Parsed → Denial ⊎ Principal
accepted p db refused = inl invalid_token
accepted p db other_claims = inl invalid_claims
accepted p db (claimed claims) =
    let principal = principal_of claims in
    if principal.subject == "" || principal.username == "" || role_rank principal.role == 0
    then inl incomplete_claims
    else resolved principal (find_user_by_username p principal.username db)

abbrev pub bearer : Platform → Db → Tokens → Option String → Denial ⊎ Principal
bearer p db tokens none = inl missing_token
bearer p db tokens (some raw) =
    accepted p db (tokens.parse tokens.secret tokens.issuer (trim_space raw))

-- On the header Authorization
unfoldable pub authenticate : Platform → Tokens → String → Db → Denial ⊎ Principal
authenticate p tokens header db = bearer p db tokens (cut_prefix (trim_space header) "Bearer ")

unfoldable pub require_roles : List String → String → Bool
require_roles roles role = contains roles role

unfoldable pub require_minimum_role : String → String → Bool
require_minimum_role minimum role =
    not (role_rank minimum == 0 || ltb (role_rank role) (role_rank minimum))
