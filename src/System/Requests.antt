-- ===== src/System/Requests.antt =====
-- Requests that write, and sequences of them.
use gb_516_hydropower_gate_d.Prelude.{ℕ, List, [], ◌∷◌, All}
use gb_516_hydropower_gate_d.Dto.{
  TransitionRequest, CreateReservoir, UpdateReservoir, CreateGateUnit, UpdateGateUnit,
  CreateOperationDirective, UpdateOperationDirective, CreateExecutionConfirmation,
  UpdateExecutionConfirmation,
}
use gb_516_hydropower_gate_d.Failure.{Result, ok, err}
use gb_516_hydropower_gate_d.Repository.{Platform, Db, Context, Exec}
use gb_516_hydropower_gate_d.Service.Common.{Caller}
use gb_516_hydropower_gate_d.Service.Reservoir
use gb_516_hydropower_gate_d.Service.Gate
use gb_516_hydropower_gate_d.Service.Directive
use gb_516_hydropower_gate_d.Service.Confirmation
use gb_516_hydropower_gate_d.Model.{OperationDirective}
use gb_516_hydropower_gate_d.System.Preserved.{Preserved}
use gb_516_hydropower_gate_d.System.Reservoirs as R
use gb_516_hydropower_gate_d.System.Gates as G
use gb_516_hydropower_gate_d.System.Directives as D
use gb_516_hydropower_gate_d.System.Confirmations as C

pub data Request : Type 0 where
  create_reservoir : CreateReservoir → Request
  update_reservoir : ℕ → UpdateReservoir → Request
  move_reservoir : ℕ → TransitionRequest → Request
  delete_reservoir : ℕ → Request
  create_gate : CreateGateUnit → Request
  update_gate : ℕ → UpdateGateUnit → Request
  move_gate : ℕ → TransitionRequest → Request
  delete_gate : ℕ → Request
  create_directive : CreateOperationDirective → Request
  update_directive : ℕ → UpdateOperationDirective → Request
  move_directive : ℕ → TransitionRequest → Request
  delete_directive : ℕ → Request
  create_confirmation : CreateExecutionConfirmation → Request
  update_confirmation : ℕ → UpdateExecutionConfirmation → Request
  move_confirmation : ℕ → TransitionRequest → Request
  delete_confirmation : ℕ → Request

abbrev pub forget : {A : Type 0} → Result A → Result (Unit {0})
forget (ok a) = ok tt
forget (err e) = err e

-- A call whose record goes into the response.
abbrev pub discard : {A : Type 0} → Exec A → Exec (Unit {0})
discard m db = (forget (m db).0, (m db).1)

-- The call of a service that a request makes.
unfoldable pub call : Platform → Context → Caller → Request → Exec (Unit {0})
call p ctx who (create_reservoir input) = discard (Reservoir.create p ctx input who)
call p ctx who (update_reservoir id input) = discard (Reservoir.update p ctx id input who)
call p ctx who (move_reservoir id input) = discard (Reservoir.transition p ctx id input who)
call p ctx who (delete_reservoir id) = Reservoir.delete p ctx id who
call p ctx who (create_gate input) = discard (Gate.create p ctx input who)
call p ctx who (update_gate id input) = discard (Gate.update p ctx id input who)
call p ctx who (move_gate id input) = discard (Gate.transition p ctx id input who)
call p ctx who (delete_gate id) = Gate.delete p ctx id who
call p ctx who (create_directive input) = discard (Directive.create p ctx input who)
call p ctx who (update_directive id input) = discard (Directive.update p ctx id input who)
call p ctx who (move_directive id input) = discard (Directive.transition p ctx id input who)
call p ctx who (delete_directive id) = Directive.delete p ctx id who
call p ctx who (create_confirmation input) = discard (Confirmation.create p ctx input who)
call p ctx who (update_confirmation id input) = discard (Confirmation.update p ctx id input who)
call p ctx who (move_confirmation id input) = discard (Confirmation.transition p ctx id input who)
call p ctx who (delete_confirmation id) = Confirmation.delete p ctx id who

-- What the request leaves, whether it succeeds or fails.
unfoldable pub perform : Platform → Context → Caller → Request → Db → Db
unfolding call
perform p ctx who request db = (call p ctx who request db).1

-- Requests one after another, each with its context and its caller.
unfoldable pub serve : Platform → List (Context × Caller × Request) → Db → Db
unfolding perform
serve p [] db = db
serve p ((ctx, who, request) ∷ requests) db = serve p requests (perform p ctx who request db)

module _ {p : Platform} {P : Db → Type 0} {Q : OperationDirective → Type 0} {N : Caller → Type 0}
    (k : Preserved p P Q N) where
  -- Every operation keeps what is `Preserved`, on success and on failure.
  pub perform-Preserved :
      (ctx : Context) (who : Caller) (request : Request) (db : Db)
      → N who
      → P db
      → P (perform p ctx who request db)
  unfolding perform
  perform-Preserved ctx who (create_reservoir input) db named h =
      (R.Keeps-create k ctx input who).at db h
  perform-Preserved ctx who (update_reservoir id input) db named h =
      (R.Keeps-update k ctx id input who).at db h
  perform-Preserved ctx who (move_reservoir id input) db named h =
      (R.Keeps-transition k ctx id input who).at db h
  perform-Preserved ctx who (delete_reservoir id) db named h = (R.Keeps-delete k ctx id who).at db h
  perform-Preserved ctx who (create_gate input) db named h =
      (G.Keeps-create k ctx input who).at db h
  perform-Preserved ctx who (update_gate id input) db named h =
      (G.Keeps-update k ctx id input who).at db h
  perform-Preserved ctx who (move_gate id input) db named h =
      (G.Keeps-transition k ctx id input who).at db h
  perform-Preserved ctx who (delete_gate id) db named h = (G.Keeps-delete k ctx id who).at db h
  perform-Preserved ctx who (create_directive input) db named h =
      (D.Keeps-create k ctx input who).at db h
  perform-Preserved ctx who (update_directive id input) db named h =
      (D.Keeps-update k ctx id input who).at db h
  perform-Preserved ctx who (move_directive id input) db named h =
      (D.Keeps-transition k ctx id input who named).at db h
  perform-Preserved ctx who (delete_directive id) db named h = (D.Keeps-delete k ctx id who).at db h
  perform-Preserved ctx who (create_confirmation input) db named h =
      (C.Keeps-create k ctx input who).at db h
  perform-Preserved ctx who (update_confirmation id input) db named h =
      (C.Keeps-update k ctx id input who).at db h
  perform-Preserved ctx who (move_confirmation id input) db named h =
      (C.Keeps-transition k ctx id input who).at db h
  perform-Preserved ctx who (delete_confirmation id) db named h =
      (C.Keeps-delete k ctx id who).at db h

  pub serve-Preserved :
      (requests : List (Context × Caller × Request)) (db : Db)
      → All (λ (r : Context × Caller × Request). N r.1) requests
      → P db
      → P (serve p requests db)
  unfolding serve
  serve-Preserved [] db named h = h
  serve-Preserved ((ctx, who, request) ∷ requests) db named h =
      serve-Preserved requests (perform p ctx who request db) named.1
        (perform-Preserved ctx who request db named.0 h)

-- Nothing is assumed of the callers.
pub all_callers :
    (requests : List (Context × Caller × Request))
    → All (λ (r : Context × Caller × Request). Unit {0}) requests
all_callers [] = tt
all_callers (r ∷ requests) = (tt, all_callers requests)
