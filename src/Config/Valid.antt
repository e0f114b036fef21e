-- ===== src/Config/Valid.antt =====
-- Validate accepts exactly the settings that meet an independent list of requirements.
use Prim.Native.String.{len}
use gb_516_hydropower_gate_d.Prelude.{
  ◌≡◌, ◌≢◌, ◌≤◌, ◌↔◌, ◌⊎◌, inl, inr, refl, arith, eq_iff, String, Bool, false, pos, ◌≤ℤ◌, Option,
  none, some, not, List, [], ◌∷◌, All, Bool-cases, ◌&&◌, ◌==◌, string_eq, any,
}
use gb_516_hydropower_gate_d.Text.{trim_space, to_lower}
use gb_516_hydropower_gate_d.Config.Values.{
  Process, Config, Invalid, Check, run_checks, contains, is_driver, is_weak_secret,
  is_weak_password, share_password, timeouts, timeout_error, is_not_positive, Timeout,
}

abbrev pub IsStrong : String → Type 0
IsStrong password = (password ≢ "Admin123!") × (12 ≤ len password)

-- What production asks of the secrets.
pub record IsHardened (os : Process) (c : Config) : Type 0 where
  pub own_secret : c.jwt_secret ≢ "development-only-change-me"
  pub long_secret : 32 ≤ len c.jwt_secret
  pub replaced : contains (to_lower os.unicode c.jwt_secret) "replace-this" ≡ false
  pub changed : contains (to_lower os.unicode c.jwt_secret) "change-me" ≡ false
  pub admin_strong : IsStrong c.bootstrap_admin_password
  pub operator_strong : IsStrong c.bootstrap_operator_password
  pub reviewer_strong : IsStrong c.bootstrap_reviewer_password
  pub admin_operator : c.bootstrap_admin_password ≢ c.bootstrap_operator_password
  pub admin_reviewer : c.bootstrap_admin_password ≢ c.bootstrap_reviewer_password
  pub operator_reviewer : c.bootstrap_operator_password ≢ c.bootstrap_reviewer_password

pub record IsTimed (c : Config) : Type 0 where
  pub startup : pos 1 ≤ℤ c.startup_timeout
  pub shutdown : pos 1 ≤ℤ c.shutdown_timeout
  pub read_header : pos 1 ≤ℤ c.read_header_timeout
  pub read : pos 1 ≤ℤ c.read_timeout
  pub write : pos 1 ≤ℤ c.write_timeout
  pub idle : pos 1 ≤ℤ c.idle_timeout

pub record IsValid (os : Process) (c : Config) : Type 0 where
  pub driver :
      (c.database_driver ≡ "postgres")
      ⊎ (c.database_driver ≡ "mysql")
      ⊎ (c.database_driver ≡ "sqlite")
  pub named : trim_space c.app_name ≢ ""
  pub has_port : trim_space c.port ≢ ""
  pub secret_length : 16 ≤ len c.jwt_secret
  pub production_ready : (c.environment ≢ "production") ⊎ IsHardened os c
  pub request_limit_low : pos 10 ≤ℤ c.request_limit
  pub request_limit_high : c.request_limit ≤ℤ pos 100000
  pub login_limit_low : pos 1 ≤ℤ c.login_request_limit
  pub login_limit_high : c.login_request_limit ≤ℤ pos 1000
  pub timed : IsTimed c

abbrev pub IsPassed : Check → Type 0
IsPassed k = k.fails ≡ false

pub passed :
    (ks : List Check) (rest : Option Invalid)
    → run_checks ks rest ≡ none
    → All IsPassed ks × (rest ≡ none)
passed [] rest h = (tt, h)
passed (k ∷ ks) rest h = elim (Bool-cases k.fails) [
  | inl failed ↦ absurd (ground (arith, h))
  | inr fine ↦ let (others, left) = passed ks rest (ground (arith, h)) in ((fine, others), left)
]

pub pass :
    (ks : List Check) (rest : Option Invalid)
    → All IsPassed ks
    → rest ≡ none
    → run_checks ks rest ≡ none
pass [] rest h left = left
pass (k ∷ ks) rest (fine, others) left = rw fine (pass ks rest others left)

pub is_driver_iff :
    (d : String) → (not (is_driver d) ≡ false) ↔ ((d ≡ "postgres") ⊎ (d ≡ "mysql") ⊎ (d ≡ "sqlite"))
is_driver_iff d = ground (arith, eq_iff d "postgres", eq_iff d "mysql", eq_iff d "sqlite")

IsStrong-of_weak : (s : String) → is_weak_password s ≡ false → IsStrong s
IsStrong-of_weak s h = ground (arith, eq_iff s "Admin123!", h)

pub weak_of_strong : (s : String) → IsStrong s → is_weak_password s ≡ false
weak_of_strong s h = ground (arith, eq_iff s "Admin123!", h)

module _ (os : Process) (c : Config) where
  pub IsHardened-of_tests :
      is_weak_secret os c.jwt_secret ≡ false
      → is_weak_password c.bootstrap_admin_password ≡ false
      → is_weak_password c.bootstrap_operator_password ≡ false
      → is_weak_password c.bootstrap_reviewer_password ≡ false
      → share_password c ≡ false
      → IsHardened os c
  IsHardened-of_tests s a o r d = record {
    own_secret = ground (arith, eq_iff c.jwt_secret "development-only-change-me", s);
    long_secret = ground (arith, s);
    replaced = ground (arith, s);
    changed = ground (arith, s);
    admin_strong = IsStrong-of_weak c.bootstrap_admin_password a;
    operator_strong = IsStrong-of_weak c.bootstrap_operator_password o;
    reviewer_strong = IsStrong-of_weak c.bootstrap_reviewer_password r;
    admin_operator =
        ground (arith, d, eq_iff c.bootstrap_admin_password c.bootstrap_operator_password);
    admin_reviewer =
        ground (arith, d, eq_iff c.bootstrap_admin_password c.bootstrap_reviewer_password);
    operator_reviewer =
        ground (arith, d, eq_iff c.bootstrap_operator_password c.bootstrap_reviewer_password);
  }

  pub secret_of_hardened : IsHardened os c → is_weak_secret os c.jwt_secret ≡ false
  secret_of_hardened h = ground (
    arith,
    eq_iff c.jwt_secret "development-only-change-me",
    h.own_secret,
    h.long_secret,
    h.replaced,
    h.changed,
  )

  pub shared_of_hardened : IsHardened os c → share_password c ≡ false
  shared_of_hardened h = ground (
    arith,
    h.admin_operator,
    h.admin_reviewer,
    h.operator_reviewer,
    eq_iff c.bootstrap_admin_password c.bootstrap_operator_password,
    eq_iff c.bootstrap_admin_password c.bootstrap_reviewer_password,
    eq_iff c.bootstrap_operator_password c.bootstrap_reviewer_password,
  )

  pub IsTimed-of_any : any is_not_positive (timeouts c) ≡ false → IsTimed c
  IsTimed-of_any h = record {
    startup = ground (arith, h);
    shutdown = ground (arith, h);
    read_header = ground (arith, h);
    read = ground (arith, h);
    write = ground (arith, h);
    idle = ground (arith, h);
  }

  pub any_of_timed : IsTimed c → any is_not_positive (timeouts c) ≡ false
  any_of_timed t = ground (arith, t.startup, t.shutdown, t.read_header, t.read, t.write, t.idle)

  pub timeout_error-none : (o : Option Timeout) → timeout_error o ≡ none → o ≡ none
  timeout_error-none none h = refl
  timeout_error-none (some t) h = cc

  pub production_cases :
      (w a o r d : Bool)
      → ((c.environment == "production") && w) ≡ false
      → ((c.environment == "production") && a) ≡ false
      → ((c.environment == "production") && o) ≡ false
      → ((c.environment == "production") && r) ≡ false
      → ((c.environment == "production") && d) ≡ false
      → (c.environment ≢ "production")
        ⊎ ((w ≡ false) × (a ≡ false) × (o ≡ false) × (r ≡ false) × (d ≡ false))
  production_cases w a o r d hw ha ho hr hd =
      ground (arith, eq_iff c.environment "production", hw, ha, ho, hr, hd)

  pub not_production :
      (w : Bool) → c.environment ≢ "production" → ((c.environment == "production") && w) ≡ false
  not_production w h = ground (arith, eq_iff c.environment "production", h)

  pub and_false : (b w : Bool) → w ≡ false → (b && w) ≡ false
  and_false b w h = ground (arith, h)
