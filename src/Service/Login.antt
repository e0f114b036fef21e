-- ===== src/Service/Login.antt =====
-- backend/internal/service/security.go: Login. bcrypt and the signing of tokens are parameters.
pub mod Laws
use gb_516_hydropower_gate_d.Prelude.{
  ℕ, ◌/◌, ℤ, pos, negsuc, ◌+ℤ◌, String, Bool, not, Option, none, some, if◌then◌else◌,
}
use gb_516_hydropower_gate_d.Text.{decimal}
use gb_516_hydropower_gate_d.Failure.{Result, ok, err, unauthorized, inactive_user, signing_failed}
use gb_516_hydropower_gate_d.Model.{User}
use gb_516_hydropower_gate_d.Repository.{Platform, Db, Context}
use gb_516_hydropower_gate_d.Repository.Security.{find_user_by_username}

pub record LoginRequest : Type 0 where
  pub username : String
  pub password : String

pub record LoginResponse : Type 0 where
  pub token : String
  pub expires_in : ℤ
  pub username : String
  pub display_name : String
  pub role : String

pub record TokenClaims : Type 0 where
  pub sub : String
  pub username : String
  pub name : String
  pub role : String
  pub iat : ℤ
  pub exp : ℤ
  pub iss : String

-- bcrypt.CompareHashAndPassword, the signing of claims under a secret, and the configuration that
-- Login reads. A time.Duration is its nanoseconds; `seconds` is `int64(d.Seconds())`, which goes through
-- a float64.
pub record Crypto : Type 0 where
  pub matches : (hash password : String) → Bool
  pub sign : (secret : String) → TokenClaims → Option String
  pub jwt_secret : String
  pub app_name : String
  pub token_ttl : ℤ
  pub seconds : ℤ → ℤ

-- Unix() of a time: the whole seconds, rounded down also before 1970
abbrev pub unix : ℤ → ℤ
unix (pos n) = pos (n / 1000000000)
unix (negsuc n) = negsuc (n / 1000000000)

abbrev pub claims_of : Crypto → Context → User → TokenClaims
claims_of c ctx user = record {
  sub = decimal user.id;
  username = user.username;
  name = user.display_name;
  role = user.role;
  iat = unix (pos ctx.now);
  exp = unix (pos ctx.now +ℤ c.token_ttl);
  iss = c.app_name;
}

abbrev pub signed : Crypto → User → Option String → Result LoginResponse
signed c user none = err signing_failed
signed c user (some token) = ok (record {
  token = token;
  expires_in = c.seconds c.token_ttl;
  username = user.username;
  display_name = user.display_name;
  role = user.role;
})

abbrev pub identified : Crypto → Context → LoginRequest → Result User → Result LoginResponse
identified c ctx input (err e) = err unauthorized
identified c ctx input (ok user) =
    if not (c.matches user.password_hash input.password)
    then err unauthorized
    else if not user.active
    then err inactive_user
    else signed c user (c.sign c.jwt_secret (claims_of c ctx user))

unfoldable pub login : Platform → Crypto → Context → LoginRequest → Db → Result LoginResponse
login p c ctx input db = identified c ctx input (find_user_by_username p input.username db)
