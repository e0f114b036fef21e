-- ===== src/Handler.antt =====
-- backend/internal/handler: which roles the routes let through, the caller that a handler passes on
-- to the service, and the status code of an error.
pub mod Guards
pub mod Responses
pub mod Reservoirs
pub mod Gates
pub mod Directives
pub mod Confirmations
pub mod Inputs
pub mod Endpoints
pub mod Answers
pub mod Refusals
pub mod Reports
use gb_516_hydropower_gate_d.Prelude.{
  ℕ, String, List, [], ◌∷◌, ◌⊎◌, inl, inr, if◌then◌else◌, ◌!=◌, string_eq,
}
use gb_516_hydropower_gate_d.Text.{trim_space}
use gb_516_hydropower_gate_d.Failure.{
  Error, invalid_transition, invalid_input, forbidden, two_person_required, immutable_state,
  unauthorized, inactive_user, version_conflict, record_not_found, audit_fields_missing,
  signing_failed, driver,
}
use gb_516_hydropower_gate_d.Repository.{Platform, Db}
use gb_516_hydropower_gate_d.Service.Common.{Caller}
use gb_516_hydropower_gate_d.Middleware.Auth.{
  Principal, Denial, Tokens, authenticate, require_roles,
}
use gb_516_hydropower_gate_d.Middleware.Auth as Auth
use gb_516_hydropower_gate_d.System.Requests.{
  Request, create_reservoir, update_reservoir, move_reservoir, delete_reservoir, create_gate,
  update_gate, move_gate, delete_gate, create_directive, update_directive, move_directive,
  delete_directive, create_confirmation, update_confirmation, move_confirmation,
  delete_confirmation,
}

abbrev operators : List String
operators = "operator" ∷ "admin" ∷ []

-- `RequireRoles` of the routes that `Register` sets up.
abbrev pub route_roles : Request → List String
route_roles (create_reservoir input) = operators
route_roles (update_reservoir id input) = operators
route_roles (move_reservoir id input) = operators
route_roles (delete_reservoir id) = "admin" ∷ []
route_roles (create_gate input) = operators
route_roles (update_gate id input) = operators
route_roles (move_gate id input) = operators
route_roles (delete_gate id) = "admin" ∷ []
route_roles (create_directive input) = operators
route_roles (update_directive id input) = operators
route_roles (move_directive id input) = "operator" ∷ "reviewer" ∷ "admin" ∷ []
route_roles (delete_directive id) = "admin" ∷ []
route_roles (create_confirmation input) = operators
route_roles (update_confirmation id input) = operators
route_roles (move_confirmation id input) = operators
route_roles (delete_confirmation id) = "admin" ∷ []

-- `actorFromContext`, `roleFromContext` and `requestIDFromContext` behind the middleware
abbrev pub caller_of : Principal → String → Caller
caller_of principal request_id = record {
  actor = trim_space principal.username;
  role = trim_space principal.role;
  request_id = request_id;
}

abbrev pub admitted : Request → String → Denial ⊎ Principal → Denial ⊎ Caller
admitted request request_id (inl denial) = inl denial
admitted request request_id (inr principal) =
    if require_roles (route_roles request) principal.role
    then inr (caller_of principal request_id)
    else inl Auth.forbidden

-- `Authenticate`, then `RequireRoles`. The check of `remove` is left out: it repeats that of its route.
unfoldable pub authorize : Platform → Tokens → String → String → Db → Request → Denial ⊎ Caller
authorize p tokens header request_id db request =
    admitted request request_id (authenticate p tokens header db)

-- `handleError`: the status code and the error code
unfoldable pub handle_error : Error → ℕ × String
handle_error record_not_found = (404, "not_found")
handle_error version_conflict = (409, "version_conflict")
handle_error forbidden = (403, "forbidden")
handle_error two_person_required = (409, "safety_rule")
handle_error immutable_state = (409, "safety_rule")
handle_error invalid_transition = (422, "business_rule")
handle_error invalid_input = (422, "business_rule")
handle_error unauthorized = (500, "internal_error")
handle_error inactive_user = (500, "internal_error")
handle_error audit_fields_missing = (500, "internal_error")
handle_error signing_failed = (500, "internal_error")
handle_error (driver n) = (500, "internal_error")
