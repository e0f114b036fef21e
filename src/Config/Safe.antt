-- ===== src/Config/Safe.antt =====
-- What is known of settings that Validate accepts, and of settings that Load returns.
use gb_516_hydropower_gate_d.Prelude.{
  ◌≡◌, ◌≢◌, ◌↔◌, ◌⊎◌, inl, inr, refl, sym, ◌∙◌, arith, eq_iff, false, none, All, ◌&&◌, string_eq,
  find?-none, find?_of_any,
}
use gb_516_hydropower_gate_d.Text.{trim_space}
use gb_516_hydropower_gate_d.Config.Values.{
  Process, Config, MapOrder, validate, checks, is_production, is_weak_secret, is_weak_password,
  share_password, timeouts, is_not_positive,
}
use gb_516_hydropower_gate_d.Config.Valid.{
  IsValid, IsHardened, IsTimed, IsPassed, passed, pass, is_driver_iff, weak_of_strong,
  IsHardened-of_tests, secret_of_hardened, shared_of_hardened, IsTimed-of_any, any_of_timed,
  timeout_error-none, production_cases, not_production, and_false,
}

module _ (os : Process) (m : MapOrder) (c : Config) where
  ready : All IsPassed (checks os c) → (c.environment ≢ "production") ⊎ IsHardened os c
  ready (_, (_, (_, (_, (weak, (admin, (operator, (reviewer, (shared, _))))))))) =
      elim (production_cases os c (is_weak_secret os c.jwt_secret)
        (is_weak_password c.bootstrap_admin_password)
        (is_weak_password c.bootstrap_operator_password)
        (is_weak_password c.bootstrap_reviewer_password) (share_password c) weak admin operator
        reviewer shared) [
          | inl other ↦ inl other
          | inr (w, a, o, r, d) ↦ inr (IsHardened-of_tests os c w a o r d)
        ]

  IsValid-of_tests : All IsPassed (checks os c) → IsTimed c → IsValid os c
  IsValid-of_tests h timed =
      let (driver, (named, (has_port, (secret, (_, (_, (_, (_, (_, (limit, (login, _))))))))))) =
        h in
      record {
        driver = (is_driver_iff c.database_driver).0 driver;
        named = ground (arith, eq_iff (trim_space c.app_name) "", named);
        has_port = ground (arith, eq_iff (trim_space c.port) "", has_port);
        secret_length = ground (arith, secret);
        production_ready = ready h;
        request_limit_low = ground (arith, limit);
        request_limit_high = ground (arith, limit);
        login_limit_low = ground (arith, login);
        login_limit_high = ground (arith, login);
        timed = timed;
      }

  IsValid-of_validate : validate os m c ≡ none → IsValid os c
  unfolding validate
  IsValid-of_validate h =
      let (fine, rest) = passed (checks os c) _ h in
      IsValid-of_tests fine (
        IsTimed-of_any os c (
          sym (m.any-order is_not_positive (timeouts c))
          ∙ find?-none is_not_positive (m.order (timeouts c)) (timeout_error-none os c _ rest)))

  production_tests :
      (c.environment ≢ "production") ⊎ IsHardened os c
      → ((is_production c && is_weak_secret os c.jwt_secret) ≡ false)
        × ((is_production c && is_weak_password c.bootstrap_admin_password) ≡ false)
        × ((is_production c && is_weak_password c.bootstrap_operator_password) ≡ false)
        × ((is_production c && is_weak_password c.bootstrap_reviewer_password) ≡ false)
        × ((is_production c && share_password c) ≡ false)
  production_tests (inl other) = (
    not_production os c (is_weak_secret os c.jwt_secret) other,
    not_production os c (is_weak_password c.bootstrap_admin_password) other,
    not_production os c (is_weak_password c.bootstrap_operator_password) other,
    not_production os c (is_weak_password c.bootstrap_reviewer_password) other,
    not_production os c (share_password c) other,
  )
  production_tests (inr h) = (
    and_false os c (is_production c) _ (secret_of_hardened os c h),
    and_false os c (is_production c) _ (weak_of_strong c.bootstrap_admin_password h.admin_strong),
    and_false os c (is_production c) _
        (weak_of_strong c.bootstrap_operator_password h.operator_strong),
    and_false os c (is_production c) _
        (weak_of_strong c.bootstrap_reviewer_password h.reviewer_strong),
    and_false os c (is_production c) _ (shared_of_hardened os c h),
  )

  tests_of_valid : IsValid os c → All IsPassed (checks os c)
  tests_of_valid v =
      let (weak, admin, operator, reviewer, shared) = production_tests v.production_ready in
      (
        (is_driver_iff c.database_driver).1 v.driver,
        (
          ground (arith, eq_iff (trim_space c.app_name) "", v.named),
          (
            ground (arith, eq_iff (trim_space c.port) "", v.has_port),
            (
              ground (arith, v.secret_length),
              (
                weak,
                (
                  admin,
                  (
                    operator,
                    (
                      reviewer,
                      (
                        shared,
                        (
                          ground (arith, v.request_limit_low, v.request_limit_high),
                          (ground (arith, v.login_limit_low, v.login_limit_high), tt),
                        ),
                      ),
                    ),
                  ),
                ),
              ),
            ),
          ),
        ),
      )

  validate_of_valid : IsValid os c → validate os m c ≡ none
  unfolding validate
  validate_of_valid v = pass (checks os c) _ (tests_of_valid v) (
      rw
        (find?_of_any is_not_positive (m.order (timeouts c))
          (m.any-order is_not_positive (timeouts c) ∙ any_of_timed os c v.timed))
        refl)

-- Validate returns nil exactly for the settings that meet the requirements of IsValid, in whatever
-- order Go goes through the timeouts.
pub validate-IsValid :
    (os : Process) (m : MapOrder) (c : Config) → (validate os m c ≡ none) ↔ IsValid os c
validate-IsValid os m c = (IsValid-of_validate os m c, validate_of_valid os m c)
