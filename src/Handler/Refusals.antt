-- ===== src/Handler/Refusals.antt =====
-- What a request to a resource leaves that is answered with an error.
use gb_516_hydropower_gate_d.Prelude.{
  ℕ, ◌≤◌, ◌≡◌, ◌⊎◌, inl, inr, refl, sym, subst, arith, false, Option, some, string_eq,
}
use gb_516_hydropower_gate_d.Failure.{Error, Result, ok, err}
use gb_516_hydropower_gate_d.Repository.{Platform, Db, Context}
use gb_516_hydropower_gate_d.Service.Common.{Caller}
use gb_516_hydropower_gate_d.System.Requests.{
  Request, create_reservoir, update_reservoir, move_reservoir, delete_reservoir, create_gate,
  update_gate, move_gate, delete_gate, create_directive, update_directive, move_directive,
  delete_directive, create_confirmation, update_confirmation, move_confirmation,
  delete_confirmation, call, perform,
}
use gb_516_hydropower_gate_d.System.Atomicity.{RereadFails, failed_call_unchanged}
use gb_516_hydropower_gate_d.Handler.Endpoints.{
  Endpoint, handle, success_status, result_status, IsAnswered, request_of,
}
use gb_516_hydropower_gate_d.Handler.Answers.{handle-IsAnswered}

-- A success has a status code below 400.
success_below : (request : Request) → success_status request ≤ 204
success_below (create_reservoir input) = omega arith
success_below (update_reservoir id input) = omega arith
success_below (move_reservoir id input) = omega arith
success_below (delete_reservoir id) = omega arith
success_below (create_gate input) = omega arith
success_below (update_gate id input) = omega arith
success_below (move_gate id input) = omega arith
success_below (delete_gate id) = omega arith
success_below (create_directive input) = omega arith
success_below (update_directive id input) = omega arith
success_below (move_directive id input) = omega arith
success_below (delete_directive id) = omega arith
success_below (create_confirmation input) = omega arith
success_below (update_confirmation id input) = omega arith
success_below (move_confirmation id input) = omega arith
success_below (delete_confirmation id) = omega arith

failed_result :
    (request : Request) (r : Result (Unit {0}))
    → 400 ≤ result_status request r
    → (e : Error) × (r ≡ err e)
failed_result request (ok u) h = absurd (omega (arith, h, success_below request))
failed_result request (err e) h = (e, refl)

-- The writes of an update or a transition were committed, and the read for its response then failed.
pub record IsReread (p : Platform) (ctx : Context) (who : Caller) (asked : Option Request)
    (db db' : Db) : Type 0 where
  pub request : Request
  pub error : Error
  pub asked_for : asked ≡ some request
  pub committed : db' ≡ perform p ctx who request db
  pub reread : RereadFails p request error db'

module _ (p : Platform) (ctx : Context) (who : Caller) (outer : ctx.in_transaction ≡ false) where
  unchanged :
      (asked : Option Request) (db : Db) (x : ℕ × Db)
      → IsAnswered p ctx who db asked x
      → 400 ≤ x.0
      → (x.1 ≡ db) ⊎ IsReread p ctx who asked db x.1
  unfolding perform
  unchanged asked db x (inl same) h = inl same
  unchanged asked db x (inr (request, decoded, left, status)) h =
      let (e, failed) =
        failed_result request (call p ctx who request db).0 (subst (λ n. 400 ≤ n) status h) in
      elim (failed_call_unchanged p ctx who outer request {db = db} {db' = x.1} {e = e}
        (record { run = λ i. (failed i, sym left i) })) [
          | inl same ↦ inl same
          | inr reread ↦ inr (record {
            request = request;
            error = e;
            asked_for = decoded;
            committed = left;
            reread = reread;
          })
        ]

  -- A request to a resource that is answered with an error, 400 or above, has changed nothing, unless
  -- it is an update or a transition whose writes were committed and whose read of the record for the
  -- response failed after that.
  pub refused_unchanged :
      (endpoint : Endpoint) (db : Db)
      → 400 ≤ (handle p ctx who endpoint db).0
      → ((handle p ctx who endpoint db).1 ≡ db)
        ⊎ IsReread p ctx who (request_of who endpoint) db (handle p ctx who endpoint db).1
  refused_unchanged endpoint db h =
      unchanged (request_of who endpoint) db (handle p ctx who endpoint db)
        (handle-IsAnswered p ctx who db endpoint) h
