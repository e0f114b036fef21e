-- ===== src/Config/Causes.antt =====
-- Which errors Load can return.
use gb_516_hydropower_gate_d.Prelude.{
  ◌≡◌, ◌≢◌, ◌⊎◌, inl, inr, refl, ◌∙◌, arith, eq_iff, String, false, ℤ, pos, ◌≤ℤ◌, Option, none,
  some, List, [], ◌∷◌, All, ◌==◌, string_eq, find?, find?_of_any, Bool-cases,
}
use gb_516_hydropower_gate_d.Text.{trim_space}
use gb_516_hydropower_gate_d.Text.Trim.{trim_space_idem}
use gb_516_hydropower_gate_d.Config.Values.{
  Process, Config, MapOrder, Invalid, Check, run_checks, checks, validate, timeouts,
  is_not_positive, empty_app_name, empty_port, not_positive,
}
use gb_516_hydropower_gate_d.Config.Load.{
  set_or, positive_or, env, duration_env, settings, load, loaded, invalid,
}
use gb_516_hydropower_gate_d.Config.Valid.{IsTimed, any_of_timed}

trim-set_or :
    (o : Option String) (fallback : String)
    → trim_space fallback ≢ ""
    → trim_space (set_or o fallback) ≢ ""
trim-set_or none fallback h = h
trim-set_or (some v) fallback h = ground (arith, h, eq_iff (trim_space v) "", trim_space_idem v)

le-positive_or : (fallback : ℤ) (o : Option ℤ) → pos 1 ≤ℤ fallback → pos 1 ≤ℤ positive_or fallback o
le-positive_or fallback none h = h
le-positive_or fallback (some n) h = ground (arith, h)

le-duration_env :
    (os : Process) (key : String) (fallback : ℤ)
    → pos 1 ≤ℤ fallback
    → pos 1 ≤ℤ duration_env os key fallback
unfolding duration_env
le-duration_env os key fallback h = elim (Bool-cases (env os key "" == "")) [
  | inl unset ↦ rw unset h
  | inr given ↦ rw given (le-positive_or fallback (os.parse_duration (env os key "")) h)
]

settings-IsTimed : (os : Process) → IsTimed (settings os)
unfolding settings
settings-IsTimed os = record {
  startup = le-duration_env os "STARTUP_TIMEOUT" _ (omega arith);
  shutdown = le-duration_env os "SHUTDOWN_TIMEOUT" _ (omega arith);
  read_header = le-duration_env os "READ_HEADER_TIMEOUT" _ (omega arith);
  read = le-duration_env os "READ_TIMEOUT" _ (omega arith);
  write = le-duration_env os "WRITE_TIMEOUT" _ (omega arith);
  idle = le-duration_env os "IDLE_TIMEOUT" _ (omega arith);
}

-- The check passes, or has another error.
abbrev IsOther : Invalid → Check → Type 0
IsOther e k = (k.fails ≡ false) ⊎ (k.error ≢ e)

not_raised :
    (e : Invalid) (ks : List Check) (rest : Option Invalid)
    → All (IsOther e) ks
    → rest ≡ none
    → run_checks ks rest ≢ some e
not_raised e [] rest h left = cc
not_raised e (k ∷ ks) rest (h, hs) left = ground (arith, h, not_raised e ks rest hs left)

module _ (os : Process) (m : MapOrder) where
  no_timeout_left : find? is_not_positive (m.order (timeouts (settings os))) ≡ none
  no_timeout_left = find?_of_any is_not_positive (m.order (timeouts (settings os))) (
      m.any-order is_not_positive (timeouts (settings os))
      ∙ any_of_timed os (settings os) (settings-IsTimed os))

  validate-settings :
      (e : Invalid)
      → All (IsOther e) (checks os (settings os))
      → validate os m (settings os) ≢ some e
  unfolding validate
  validate-settings e h = not_raised e (checks os (settings os)) _ h (rw no_timeout_left refl)

  app_name_is_set : trim_space (settings os).app_name ≢ ""
  unfolding settings
  app_name_is_set = trim-set_or (os.lookup_env "APP_NAME") _ (unfold trim_space in cc)

  port_is_set : trim_space (settings os).port ≢ ""
  unfolding settings
  port_is_set = trim-set_or (os.lookup_env "PORT") _ (unfold trim_space in cc)

  loaded-invalid :
      (c : Config) (o : Option Invalid) {e : Invalid} → loaded os c o ≡ invalid e → o ≡ some e
  loaded-invalid c none h = cc
  loaded-invalid c (some e) h = ground arith

  others :
      (e : Invalid)
      → (e ≡ empty_app_name) ⊎ (e ≡ empty_port) ⊎ ((n : String) × (e ≡ not_positive n))
      → All (IsOther e) (checks os (settings os))
  others e h =
      let name = trim_space (settings os).app_name in
      let port = trim_space (settings os).port in
      (
        inr (ground arith),
        (
          inl (ground (arith, eq_iff name "", app_name_is_set)),
          (
            inl (ground (arith, eq_iff port "", port_is_set)),
            (
              inr (ground arith),
              (
                inr (ground arith),
                (
                  inr (ground arith),
                  (
                    inr (ground arith),
                    (
                      inr (ground arith),
                      (inr (ground arith), (inr (ground arith), (inr (ground arith), tt))),
                    ),
                  ),
                ),
              ),
            ),
          ),
        ),
      )

  -- Whatever the environment says, Load does not fail for an empty name or port, nor for a timeout:
  -- those settings fall back to values that Validate accepts.
  pub load-causes :
      {e : Invalid}
      → load os m ≡ invalid e
      → (e ≢ empty_app_name) × (e ≢ empty_port) × ((n : String) → e ≢ not_positive n)
  unfolding load
  load-causes {e} h =
      let raised = loaded-invalid (settings os) (validate os m (settings os)) h in
      (
        λ is. validate-settings e (others e (inl is)) raised,
        λ is. validate-settings e (others e (inr (inl is))) raised,
        λ n is. validate-settings e (others e (inr (inr (n, is)))) raised,
      )
