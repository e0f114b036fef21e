-- ===== src/Config/Load.antt =====
-- Load, and how it reads a setting.
use gb_516_hydropower_gate_d.Prelude.{
  String, List, [], ◌∷◌, ℤ, pos, ltb_ℤ, Option, none, some, if◌then◌else◌, ◌==◌, ◌!=◌, string_eq,
  ◌*◌,
}
use gb_516_hydropower_gate_d.Text.{trim_space, to_lower}
use gb_516_hydropower_gate_d.Text.Split.{split}
use gb_516_hydropower_gate_d.Text.Numbers.{atoi}
use gb_516_hydropower_gate_d.Config.Values.{Process, Config, Invalid, MapOrder, validate}

abbrev pub set_or : Option String → String → String
set_or none fallback = fallback
set_or (some value) fallback = if trim_space value != "" then trim_space value else fallback

abbrev pub positive_or : ℤ → Option ℤ → ℤ
positive_or fallback none = fallback
positive_or fallback (some n) = if ltb_ℤ (pos 0) n then n else fallback

unfoldable pub keep_item : String → List String → List String
keep_item item values = if item != "" then item ∷ values else values

unfoldable pub collect : List String → List String
unfolding keep_item
collect [] = []
collect (item ∷ items) = keep_item (trim_space item) (collect items)

-- The nil slice is the empty list.
unfoldable pub split_csv : String → List String
unfolding collect
split_csv value = if trim_space value == "" then [] else collect (split "," value)

abbrev second : ℤ
second = pos 1000000000

module _ (os : Process) where
  unfoldable pub env : String → String → String
  env key fallback = set_or (os.lookup_env key) fallback

  unfoldable pub int_env : String → ℤ → ℤ
  unfolding env
  int_env key fallback =
      let raw = env key "" in if raw == "" then fallback else positive_or fallback (atoi raw)

  unfoldable pub duration_env : String → ℤ → ℤ
  unfolding env
  duration_env key fallback =
      let raw = env key "" in
      if raw == "" then fallback else positive_or fallback (os.parse_duration raw)

  -- The literal that Load validates. Durations are in nanoseconds.
  unfoldable pub settings : Config
  unfolding env int_env duration_env split_csv
  settings = record {
    app_name = env "APP_NAME" "hydropower-gate-dispatch-control";
    environment = to_lower os.unicode (env "APP_ENV" "development");
    port = env "PORT" "8080";
    database_driver = to_lower os.unicode (env "DATABASE_DRIVER" "postgres");
    database_dsn = env "DATABASE_DSN" "app.db";
    redis_addr = env "REDIS_ADDR" "";
    redis_password = env "REDIS_PASSWORD" "";
    jwt_secret = env "JWT_SECRET" "development-only-change-me";
    bootstrap_admin_password = env "BOOTSTRAP_ADMIN_PASSWORD" "Admin123!";
    bootstrap_operator_password = env "BOOTSTRAP_OPERATOR_PASSWORD" "Admin123!";
    bootstrap_reviewer_password = env "BOOTSTRAP_REVIEWER_PASSWORD" "Admin123!";
    token_ttl = duration_env "TOKEN_TTL" (pos (8 * 3600 * 1000000000));
    request_limit = int_env "REQUEST_LIMIT" (pos 180);
    login_request_limit = int_env "LOGIN_REQUEST_LIMIT" (pos 8);
    trusted_proxies = split_csv (env "TRUSTED_PROXIES" "");
    startup_timeout = duration_env "STARTUP_TIMEOUT" (pos (35 * 1000000000));
    shutdown_timeout = duration_env "SHUTDOWN_TIMEOUT" (pos (10 * 1000000000));
    read_header_timeout = duration_env "READ_HEADER_TIMEOUT" (pos (5 * 1000000000));
    read_timeout = duration_env "READ_TIMEOUT" (pos (15 * 1000000000));
    write_timeout = duration_env "WRITE_TIMEOUT" (pos (20 * 1000000000));
    idle_timeout = duration_env "IDLE_TIMEOUT" (pos (60 * 1000000000));
  }

  pub data Loaded : Type 0 where
    config : Config → Loaded
    invalid : Invalid → Loaded

  abbrev pub loaded : Config → Option Invalid → Loaded
  loaded c none = config c
  loaded c (some e) = invalid e

  unfoldable pub load : MapOrder → Loaded
  unfolding settings
  load m = loaded settings (validate os m settings)
