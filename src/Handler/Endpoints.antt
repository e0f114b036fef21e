-- ===== src/Handler/Endpoints.antt =====
-- The routes of the four resources (Register in each file of backend/internal/handler), and what their
-- handlers do: each refuses a request, reads, or makes one call of a service and answers with its result.
use gb_516_hydropower_gate_d.Prelude.{
  ℕ, ◌≡◌, ◌⊎◌, String, Option, none, some, ◌!=◌, string_eq, if◌then◌else◌,
}
use gb_516_hydropower_gate_d.Failure.{Result, ok, err}
use gb_516_hydropower_gate_d.Dto.{
  PageQuery, TransitionRequest, CreateReservoir, UpdateReservoir, CreateGateUnit, UpdateGateUnit,
  CreateOperationDirective, UpdateOperationDirective, CreateExecutionConfirmation,
  UpdateExecutionConfirmation,
}
use gb_516_hydropower_gate_d.Repository.{Platform, Db, Context}
use gb_516_hydropower_gate_d.Service.Common.{Caller}
use gb_516_hydropower_gate_d.System.Requests.{
  Request, create_reservoir, update_reservoir, move_reservoir, delete_reservoir, create_gate,
  update_gate, move_gate, delete_gate, create_directive, update_directive, move_directive,
  delete_directive, create_confirmation, update_confirmation, move_confirmation,
  delete_confirmation, call, perform,
}
use gb_516_hydropower_gate_d.Handler.{handle_error}
use gb_516_hydropower_gate_d.Handler.Responses.{Response, parse_id}
use gb_516_hydropower_gate_d.Handler.Reservoirs as Reservoirs
use gb_516_hydropower_gate_d.Handler.Gates as Gates
use gb_516_hydropower_gate_d.Handler.Directives as Directives
use gb_516_hydropower_gate_d.Handler.Confirmations as Confirmations

-- A route with what the client sent: the text of the id, and the body where gin could bind it.
pub data Action (C U : Type 0) : Type 0 where
  list : PageQuery → Action C U
  get : String → Action C U
  create : Option C → Action C U
  update : String → Option U → Action C U
  transition : String → Option TransitionRequest → Action C U
  remove : String → Action C U

pub data Endpoint : Type 0 where
  reservoir : Action CreateReservoir UpdateReservoir → Endpoint
  gate : Action CreateGateUnit UpdateGateUnit → Endpoint
  directive : Action CreateOperationDirective UpdateOperationDirective → Endpoint
  confirmation : Action CreateExecutionConfirmation UpdateExecutionConfirmation → Endpoint

-- The status code of a response, and the database.
abbrev pub status_of : {A : Type 0} → Response A × Db → ℕ × Db
status_of (r, db) = (r.status, db)

abbrev pub reservoir_route :
    Platform → Context → Caller → Action CreateReservoir UpdateReservoir → Db → ℕ × Db
reservoir_route p ctx who (list query) db = status_of (Reservoirs.list p query db)
reservoir_route p ctx who (get raw) db = status_of (Reservoirs.get p raw db)
reservoir_route p ctx who (create body) db = status_of (Reservoirs.create p ctx who body db)
reservoir_route p ctx who (update raw body) db = status_of (Reservoirs.update p ctx who raw body db)
reservoir_route p ctx who (transition raw body) db =
    status_of (Reservoirs.transition p ctx who raw body db)
reservoir_route p ctx who (remove raw) db = status_of (Reservoirs.remove p ctx who raw db)

abbrev pub gate_route :
    Platform → Context → Caller → Action CreateGateUnit UpdateGateUnit → Db → ℕ × Db
gate_route p ctx who (list query) db = status_of (Gates.list p query db)
gate_route p ctx who (get raw) db = status_of (Gates.get p raw db)
gate_route p ctx who (create body) db = status_of (Gates.create p ctx who body db)
gate_route p ctx who (update raw body) db = status_of (Gates.update p ctx who raw body db)
gate_route p ctx who (transition raw body) db = status_of (Gates.transition p ctx who raw body db)
gate_route p ctx who (remove raw) db = status_of (Gates.remove p ctx who raw db)

abbrev pub directive_route :
    Platform
    → Context
    → Caller
    → Action CreateOperationDirective UpdateOperationDirective
    → Db
    → ℕ × Db
directive_route p ctx who (list query) db = status_of (Directives.list p query db)
directive_route p ctx who (get raw) db = status_of (Directives.get p raw db)
directive_route p ctx who (create body) db = status_of (Directives.create p ctx who body db)
directive_route p ctx who (update raw body) db = status_of (Directives.update p ctx who raw body db)
directive_route p ctx who (transition raw body) db =
    status_of (Directives.transition p ctx who raw body db)
directive_route p ctx who (remove raw) db = status_of (Directives.remove p ctx who raw db)

abbrev pub confirmation_route :
    Platform
    → Context
    → Caller
    → Action CreateExecutionConfirmation UpdateExecutionConfirmation
    → Db
    → ℕ × Db
confirmation_route p ctx who (list query) db = status_of (Confirmations.list p query db)
confirmation_route p ctx who (get raw) db = status_of (Confirmations.get p raw db)
confirmation_route p ctx who (create body) db = status_of (Confirmations.create p ctx who body db)
confirmation_route p ctx who (update raw body) db =
    status_of (Confirmations.update p ctx who raw body db)
confirmation_route p ctx who (transition raw body) db =
    status_of (Confirmations.transition p ctx who raw body db)
confirmation_route p ctx who (remove raw) db = status_of (Confirmations.remove p ctx who raw db)

-- The handler that Register names for the route.
unfoldable pub handle : Platform → Context → Caller → Endpoint → Db → ℕ × Db
handle p ctx who (reservoir action) db = reservoir_route p ctx who action db
handle p ctx who (gate action) db = gate_route p ctx who action db
handle p ctx who (directive action) db = directive_route p ctx who action db
handle p ctx who (confirmation action) db = confirmation_route p ctx who action db

-- The status code of a call that succeeds.
abbrev pub success_status : Request → ℕ
success_status (create_reservoir input) = 201
success_status (update_reservoir id input) = 200
success_status (move_reservoir id input) = 200
success_status (delete_reservoir id) = 204
success_status (create_gate input) = 201
success_status (update_gate id input) = 200
success_status (move_gate id input) = 200
success_status (delete_gate id) = 204
success_status (create_directive input) = 201
success_status (update_directive id input) = 200
success_status (move_directive id input) = 200
success_status (delete_directive id) = 204
success_status (create_confirmation input) = 201
success_status (update_confirmation id input) = 200
success_status (move_confirmation id input) = 200
success_status (delete_confirmation id) = 204

abbrev pub result_status : Request → Result (Unit {0}) → ℕ
result_status request (ok u) = success_status request
result_status request (err e) = (handle_error e).0

abbrev pub both : {A B C : Type 0} → (A → B → C) → Option A → Option B → Option C
both f (some a) (some b) = some (f a b)
both f _ _ = none

abbrev pub mapped : {A B : Type 0} → (A → B) → Option A → Option B
mapped f none = none
mapped f (some a) = some (f a)

abbrev pub reservoir_request : Caller → Action CreateReservoir UpdateReservoir → Option Request
reservoir_request who (list query) = none
reservoir_request who (get raw) = none
reservoir_request who (create body) = mapped create_reservoir body
reservoir_request who (update raw body) = both update_reservoir (parse_id raw) body
reservoir_request who (transition raw body) = both move_reservoir (parse_id raw) body
reservoir_request who (remove raw) =
    if who.role != "admin" then none else mapped delete_reservoir (parse_id raw)

abbrev pub gate_request : Caller → Action CreateGateUnit UpdateGateUnit → Option Request
gate_request who (list query) = none
gate_request who (get raw) = none
gate_request who (create body) = mapped create_gate body
gate_request who (update raw body) = both update_gate (parse_id raw) body
gate_request who (transition raw body) = both move_gate (parse_id raw) body
gate_request who (remove raw) =
    if who.role != "admin" then none else mapped delete_gate (parse_id raw)

abbrev pub directive_request :
    Caller → Action CreateOperationDirective UpdateOperationDirective → Option Request
directive_request who (list query) = none
directive_request who (get raw) = none
directive_request who (create body) = mapped create_directive body
directive_request who (update raw body) = both update_directive (parse_id raw) body
directive_request who (transition raw body) = both move_directive (parse_id raw) body
directive_request who (remove raw) =
    if who.role != "admin" then none else mapped delete_directive (parse_id raw)

abbrev pub confirmation_request :
    Caller → Action CreateExecutionConfirmation UpdateExecutionConfirmation → Option Request
confirmation_request who (list query) = none
confirmation_request who (get raw) = none
confirmation_request who (create body) = mapped create_confirmation body
confirmation_request who (update raw body) = both update_confirmation (parse_id raw) body
confirmation_request who (transition raw body) = both move_confirmation (parse_id raw) body
confirmation_request who (remove raw) =
    if who.role != "admin" then none else mapped delete_confirmation (parse_id raw)

-- The request that a route asks for, if any: its id is a positive number, its body is bound, and a
-- deletion comes from an admin.
unfoldable pub request_of : Caller → Endpoint → Option Request
request_of who (reservoir action) = reservoir_request who action
request_of who (gate action) = gate_request who action
request_of who (directive action) = directive_request who action
request_of who (confirmation action) = confirmation_request who action

-- Either nothing was written, or exactly what the request writes; then the response is its result's.
abbrev pub IsAnswered : Platform → Context → Caller → Db → Option Request → ℕ × Db → Type 0
IsAnswered p ctx who db asked (status, db') =
    (db' ≡ db)
    ⊎ ((request : Request) × (asked ≡ some request)
        × (db' ≡ perform p ctx who request db)
        × (status ≡ result_status request (call p ctx who request db).0))
