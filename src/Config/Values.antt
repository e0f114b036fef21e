-- ===== src/Config/Values.antt =====
-- The type Config and its methods.
use Prim.Native.String.{len}
use gb_516_hydropower_gate_d.Prelude.{
  ◌≡◌, String, Bool, true, List, [], ◌∷◌, ℤ, pos, ltb_ℤ, ltb, any, not, Option, none, some,
  if◌then◌else◌, ◌==◌, ◌!=◌, string_eq, ◌||◌, ◌&&◌, find?,
}
use gb_516_hydropower_gate_d.Text.{Unicode, trim_space, to_lower, cut_prefix}

-- What the process takes from its environment and from package time.
pub record Process : Type 0 where
  pub unicode : Unicode
  -- os.LookupEnv
  pub lookup_env : String → Option String
  -- time.ParseDuration, whose fractions are computed in float64; none is an error
  pub parse_duration : String → Option ℤ
  -- int64(d.Seconds()), where Seconds is a float64
  pub seconds : ℤ → ℤ

-- A time.Duration is its nanoseconds.
pub record Config : Type 0 where
  pub app_name : String
  pub environment : String
  pub port : String
  pub database_driver : String
  pub database_dsn : String
  pub redis_addr : String
  pub redis_password : String
  pub jwt_secret : String
  pub bootstrap_admin_password : String
  pub bootstrap_operator_password : String
  pub bootstrap_reviewer_password : String
  pub token_ttl : ℤ
  pub request_limit : ℤ
  pub login_request_limit : ℤ
  pub trusted_proxies : List String
  pub startup_timeout : ℤ
  pub shutdown_timeout : ℤ
  pub read_header_timeout : ℤ
  pub read_timeout : ℤ
  pub write_timeout : ℤ
  pub idle_timeout : ℤ

pub record PublicConfig : Type 0 where
  pub app_name : String
  pub environment : String
  pub database_driver : String
  pub redis_enabled : Bool
  pub token_ttl_seconds : ℤ
  pub request_limit : ℤ
  pub login_request_limit : ℤ
  pub shutdown_seconds : ℤ

-- The errors of Validate.
pub data Invalid : Type 0 where
  unsupported_driver empty_app_name empty_port short_secret weak_secret : Invalid
  weak_admin_password weak_operator_password weak_reviewer_password equal_passwords : Invalid
  request_limit_range login_limit_range : Invalid
  not_positive : String → Invalid

-- strings.Contains
unfoldable pub contains : String → String → Bool
contains String.[] part = part == ""
contains (String.◌∷◌ c s) part =
    let rest = contains s part in
    elim (cut_prefix (String.◌∷◌ c s) part) [ some _ ↦ true | none ↦ rest ]

unfoldable pub listen_address : Config → String
listen_address c = String.◌∷◌ ":" c.port

abbrev pub is_production : Config → Bool
is_production c = c.environment == "production"

abbrev pub redis_enabled : Config → Bool
redis_enabled c = trim_space c.redis_addr != ""

unfoldable pub public : Process → Config → PublicConfig
public os c = record {
  app_name = c.app_name;
  environment = c.environment;
  database_driver = c.database_driver;
  redis_enabled = redis_enabled c;
  token_ttl_seconds = os.seconds c.token_ttl;
  request_limit = c.request_limit;
  login_request_limit = c.login_request_limit;
  shutdown_seconds = os.seconds c.shutdown_timeout;
}

abbrev pub is_driver : String → Bool
is_driver d = d == "postgres" || d == "mysql" || d == "sqlite"

abbrev pub is_weak_secret : Process → String → Bool
is_weak_secret os s =
    let production_secret = to_lower os.unicode s in
    s == "development-only-change-me"
    || ltb (len s) 32
    || contains production_secret "replace-this"
    || contains production_secret "change-me"

abbrev pub is_weak_password : String → Bool
is_weak_password s = s == "Admin123!" || ltb (len s) 12

abbrev pub share_password : Config → Bool
share_password c =
    c.bootstrap_admin_password == c.bootstrap_operator_password
    || c.bootstrap_admin_password == c.bootstrap_reviewer_password
    || c.bootstrap_operator_password == c.bootstrap_reviewer_password

-- An environment variable and the timeout it sets.
pub record Timeout : Type 0 where
  pub name : String
  pub value : ℤ

-- The entries of the map that Validate goes through.
abbrev pub timeouts : Config → List Timeout
timeouts c =
    record { name = "STARTUP_TIMEOUT"; value = c.startup_timeout }
    ∷ record { name = "SHUTDOWN_TIMEOUT"; value = c.shutdown_timeout }
    ∷ record { name = "READ_HEADER_TIMEOUT"; value = c.read_header_timeout }
    ∷ record { name = "READ_TIMEOUT"; value = c.read_timeout }
    ∷ record { name = "WRITE_TIMEOUT"; value = c.write_timeout }
    ∷ record { name = "IDLE_TIMEOUT"; value = c.idle_timeout }
    ∷ []

abbrev pub is_not_positive : Timeout → Bool
is_not_positive t = not (ltb_ℤ (pos 0) t.value)

abbrev pub timeout_error : Option Timeout → Option Invalid
timeout_error none = none
timeout_error (some t) = some (not_positive t.name)

-- `if fails { return error }`
pub record Check : Type 0 where
  pub fails : Bool
  pub error : Invalid

-- Such statements one after the other, and then the rest of the function.
abbrev pub run_checks : List Check → Option Invalid → Option Invalid
run_checks [] rest = rest
run_checks (k ∷ ks) rest = if k.fails then some k.error else run_checks ks rest

abbrev pub refuse_if : Bool → Invalid → Check
refuse_if b e = record { fails = b; error = e }

-- The order in which Go goes through the entries of a map, which is any order of them.
pub record MapOrder : Type 0 where
  pub order : List Timeout → List Timeout
  pub any-order : (q : Timeout → Bool) (ts : List Timeout) → any q (order ts) ≡ any q ts

-- The statements of Validate in front of its loop.
abbrev pub checks : Process → Config → List Check
checks os c =
    let production = is_production c in
    refuse_if (not (is_driver c.database_driver)) unsupported_driver
    ∷ refuse_if (trim_space c.app_name == "") empty_app_name
    ∷ refuse_if (trim_space c.port == "") empty_port
    ∷ refuse_if (ltb (len c.jwt_secret) 16) short_secret
    ∷ refuse_if (production && is_weak_secret os c.jwt_secret) weak_secret
    ∷ refuse_if (production && is_weak_password c.bootstrap_admin_password) weak_admin_password
    ∷ refuse_if (production && is_weak_password c.bootstrap_operator_password)
        weak_operator_password
    ∷ refuse_if (production && is_weak_password c.bootstrap_reviewer_password)
        weak_reviewer_password
    ∷ refuse_if (production && share_password c) equal_passwords
    ∷ refuse_if (ltb_ℤ c.request_limit (pos 10) || ltb_ℤ (pos 100000) c.request_limit)
        request_limit_range
    ∷ refuse_if (ltb_ℤ c.login_request_limit (pos 1) || ltb_ℤ (pos 1000) c.login_request_limit)
        login_limit_range
    ∷ []

-- none is the error nil
unfoldable pub validate : Process → MapOrder → Config → Option Invalid
validate os m c =
    run_checks (checks os c) (timeout_error (find? is_not_positive (m.order (timeouts c))))
