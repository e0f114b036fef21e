-- ===== src/Witness/Data.antt =====
-- A small database, the calls made on it, and how a call that was made is read.
use gb_516_hydropower_gate_d.Prelude.{ℕ, ◌≡◌, refl, String, Bool, true, false, none, some, [], ◌∷◌}
use gb_516_hydropower_gate_d.Text.{ascii_only}
use gb_516_hydropower_gate_d.Failure.{Result, ok, err}
use gb_516_hydropower_gate_d.Model.{BaseModel, GateUnit, OperationDirective, ExecutionConfirmation}
use gb_516_hydropower_gate_d.Dto.{TransitionRequest}
use gb_516_hydropower_gate_d.Orm.Memory.{memory}
use gb_516_hydropower_gate_d.Repository.{Platform, Db, Context, Exec}
use gb_516_hydropower_gate_d.Repository.Calls.Runs.{Runs}
use gb_516_hydropower_gate_d.Service.Common.{Caller}

abbrev pub platform : Platform
platform = record { unicode = ascii_only; gorm = memory }

abbrev pub context : Context
context = record { in_transaction = false; now = 1000 }

abbrev pub caller : String → String → Caller
caller actor role = record { actor = actor; role = role; request_id = "request-1" }

abbrev pub to_status : String → ℕ → TransitionRequest
to_status status version = record {
  status = status;
  expected_version = version;
  reason = "as planned";
}

abbrev base_of : ℕ → String → String → ℕ → BaseModel
base_of id code status version = record {
  id = id;
  code = code;
  name = "North gate";
  status = status;
  version = version;
  description = "";
  created_at = 1;
  updated_at = 1;
  deleted_at = none;
}

abbrev pub gate_of : String → ℕ → GateUnit
gate_of status version = record {
  base = base_of 1 "GU-1" status version;
  facility = "North dam";
  owner = "hydro";
  category = "radial";
  risk_level = "low";
  metric_value = 0;
  metric_unit = "m";
  effective_at = 1;
  evidence = "";
  related_code = "RS-1";
}

abbrev pub directive_of : String → ℕ → OperationDirective
directive_of status version = record {
  base = base_of 1 "OD-1" status version;
  facility = "North dam";
  owner = "hydro";
  category = "opening";
  risk_level = "low";
  metric_value = 0;
  metric_unit = "m";
  effective_at = 1;
  evidence = "";
  related_code = "GU-1";
  gate_state = "open";
  submitted_by = "anna";
  submitted_at = some 1;
  approved_by = "boris";
  approved_at = some 1;
  approvals = [];
}

abbrev pub confirmation_of : String → ℕ → ExecutionConfirmation
confirmation_of status version = record {
  base = base_of 1 "EC-1" status version;
  facility = "North dam";
  owner = "hydro";
  category = "opening";
  risk_level = "low";
  metric_value = 0;
  metric_unit = "m";
  effective_at = 1;
  evidence = "";
  related_code = "OD-1";
  confirmed_by = "";
  confirmed_at = none;
}

abbrev pub database : String → String → String → Db
database gate directive confirmation = record {
  users = [];
  audits = [];
  reservoirs = [];
  gates = gate_of gate 1 ∷ [];
  directives = directive_of directive 3 ∷ [];
  approvals = [];
  confirmations = confirmation_of confirmation 1 ∷ [];
}

abbrev pub succeeds : {A : Type 0} → Result A → Bool
succeeds (ok a) = true
succeeds (err e) = false

pub failed_value : {A : Type 0} → false ≡ true → A
failed_value h = cc

abbrev pub value : {A : Type 0} (r : Result A) → succeeds r ≡ true → A
value (ok a) h = a
value (err e) h = failed_value h

value-ok : {A : Type 0} (r : Result A) (h : succeeds r ≡ true) → r ≡ ok (value r h)
value-ok (ok a) h = refl
value-ok (err e) h = cc

-- A call that succeeds runs to its value and to the database that it leaves.
pub runs :
    {A : Type 0} (m : Exec A) (db : Db) (h : succeeds (m db).0 ≡ true)
    → Runs m db (value (m db).0 h) (m db).1
runs m db h = record { run = λ i. (value-ok (m db).0 h i, (m db).1) }
