-- ===== src/Failure.antt =====
-- Failures as values: the sentinel errors of backend/internal/service/errors.go and of the
-- repository, and the result of a call that may fail. The text that `fmt.Errorf("...: %w", err)`
-- puts in front of an error is dropped: `errors.Is` sees through it.
use gb_516_hydropower_gate_d.Prelude.{ℕ, Bool, true, false}

pub data Error : Type 0 where
  invalid_transition invalid_input forbidden two_person_required immutable_state : Error
  unauthorized inactive_user : Error
  version_conflict record_not_found audit_fields_missing signing_failed : Error
  driver : ℕ → Error

pub data Result {ℓ} (A : Type ℓ) : Type ℓ where
  ok : (value : A) → Result A
  err : (error : Error) → Result A

-- `if !condition { return err }`
abbrev pub require : Bool → Error → Result (Unit {0})
require true e = ok tt
require false e = err e

-- `if err != nil { return err }` after a call that returns a value
infixl 5 ◌and_then◌
abbrev pub ◌and_then◌ {ℓ κ} : {A : Type ℓ} {B : Type κ} → Result A → (A → Result B) → Result B
(ok a) and_then f = f a
(err e) and_then f = err e
