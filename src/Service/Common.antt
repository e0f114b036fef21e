-- ===== src/Service/Common.antt =====
-- What the services share: the caller of an operation, versions (Go's uint, 64 bits), and the check
-- of the business fields.
use gb_516_hydropower_gate_d.Prelude.{
  ℕ, ◌+◌, ◌-◌, ◌%◌, ◌^◌, ◌<◌, ◌≡◌, String, ◌||◌, not, ◌==◌, string_eq, arith,
}
use gb_516_hydropower_gate_d.Failure.{Result, require, invalid_input}
use gb_516_hydropower_gate_d.Text.{trim_space}

-- The `actor`, the `role` and the `requestID` that a handler passes on.
pub record Caller : Type 0 where
  pub actor : String
  pub role : String
  pub request_id : String

-- `v + 1` and `v - 1` on a uint
abbrev pub next_version : ℕ → ℕ
next_version v = (v + 1) % 2 ^ 64

abbrev pub previous_version : ℕ → ℕ
previous_version v = (v + 2 ^ 64 - 1) % 2 ^ 64

-- A version read from the database comes back when it is advanced and taken back.
pub previous_version-next_version : (v : ℕ) → v < 2 ^ 64 → previous_version (next_version v) ≡ v
previous_version-next_version v h = omega arith

-- validate...BusinessFields, the same in each service
unfoldable pub validate_business_fields : String → String → String → String → Result (Unit {0})
validate_business_fields code name facility owner =
    require
      (not (
        trim_space code == ""
        || trim_space name == ""
        || trim_space facility == ""
        || trim_space owner == ""))
      invalid_input
