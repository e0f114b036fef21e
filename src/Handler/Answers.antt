-- ===== src/Handler/Answers.antt =====
-- What the handlers of the four resources do to the database, and how they answer.
use gb_516_hydropower_gate_d.Prelude.{
  ℕ, ◌≡◌, inl, inr, refl, sym, ap, ◌∙◌, String, Option, none, some, ◌!=◌, string_eq, Bool-cases,
}
use gb_516_hydropower_gate_d.Failure.{Result, ok, err}
use gb_516_hydropower_gate_d.Repository.{Platform, Db, Context, Exec, ask}
use gb_516_hydropower_gate_d.Service.Common.{Caller}
use gb_516_hydropower_gate_d.Service.Reservoir as Reservoir
use gb_516_hydropower_gate_d.Service.Gate as Gate
use gb_516_hydropower_gate_d.Service.Directive as Directive
use gb_516_hydropower_gate_d.Service.Confirmation as Confirmation
use gb_516_hydropower_gate_d.System.Requests.{
  Request, create_reservoir, update_reservoir, move_reservoir, delete_reservoir, create_gate,
  update_gate, move_gate, delete_gate, create_directive, update_directive, move_directive,
  delete_directive, create_confirmation, update_confirmation, move_confirmation,
  delete_confirmation, forget, call, perform,
}
use gb_516_hydropower_gate_d.Handler.Responses.{
  Response, Handling, answer, respond, if_some, with_id, with_body, parse_id, success, created,
  no_content,
}
use gb_516_hydropower_gate_d.Handler.Reservoirs as Reservoirs
use gb_516_hydropower_gate_d.Handler.Gates as Gates
use gb_516_hydropower_gate_d.Handler.Directives as Directives
use gb_516_hydropower_gate_d.Handler.Confirmations as Confirmations
use gb_516_hydropower_gate_d.Handler.Endpoints.{
  Action, list, get, create, update, transition, remove, Endpoint, reservoir, gate, directive,
  confirmation, status_of, reservoir_route, gate_route, directive_route, confirmation_route, handle,
  success_status, result_status, IsAnswered, request_of, mapped, both, reservoir_request,
  gate_request, directive_request, confirmation_request,
}

module _ {A : Type 0} (P : ℕ × Db → Type 0) (db : Db) where
  by_if_some :
      {I : Type 0} (refusal : Response A) (o : Option I) (f : I → Handling A)
      → P (refusal.status, db)
      → ((i : I) → o ≡ some i → P (status_of (f i db)))
      → P (status_of (if_some refusal o f db))
  by_if_some refusal none f refused admitted = refused
  by_if_some refusal (some i) f refused admitted = admitted i refl

  by_id :
      (raw : String) (f : ℕ → Handling A)
      → P (400, db)
      → ((id : ℕ) → parse_id raw ≡ some id → P (status_of (f id db)))
      → P (status_of (with_id raw f db))
  unfolding with_id
  by_id raw f refused admitted = by_if_some _ (parse_id raw) f refused admitted

  by_body :
      {I : Type 0} (body : Option I) (f : I → Handling A)
      → P (400, db)
      → ((input : I) → body ≡ some input → P (status_of (f input db)))
      → P (status_of (with_body body f db))
  unfolding with_body
  by_body body f refused admitted = by_if_some _ body f refused admitted

answer_status :
    {A B : Type 0} (render : A → Response B) (request : Request) (r : Result A)
    → ((a : A) → (render a).status ≡ success_status request)
    → (answer render r).status ≡ result_status request (forget r)
answer_status render request (ok a) h = h a
answer_status render request (err e) h = refl

forget_unit : (r : Result (Unit {0})) → forget r ≡ r
forget_unit (ok u) = refl
forget_unit (err e) = refl

module _ (p : Platform) (ctx : Context) (who : Caller) (db : Db) where
  read :
      {A B : Type 0} (asked : Option Request) (render : A → Response B) (f : Db → Result A)
      → IsAnswered p ctx who db asked (status_of (respond render (ask f) db))
  unfolding ask
  read asked render f = inl refl

  -- One call of a service, for a request.
  called :
      {A B : Type 0} (asked : Option Request) (render : A → Response B) (m : Exec A)
      (request : Request)
      → asked ≡ some request
      → ((a : A) → (render a).status ≡ success_status request)
      → call p ctx who request db ≡ (forget (m db).0, (m db).1)
      → IsAnswered p ctx who db asked (status_of (respond render m db))
  unfolding perform
  called asked render m request decoded shown same = inr (
    request,
    decoded,
    sym (ap (λ (x : Result (Unit {0}) × Db). x.1) same),
    answer_status render request (m db).0 shown
        ∙ sym (ap (λ (x : Result (Unit {0}) × Db). result_status request x.0) same),
  )

  reservoir_route-IsAnswered :
      (action : Action _ _)
      → IsAnswered p ctx who db (reservoir_request who action) (reservoir_route p ctx who action db)
  unfolding call Reservoirs.list Reservoirs.get Reservoirs.create Reservoirs.update
      Reservoirs.transition Reservoirs.remove
  reservoir_route-IsAnswered (list query) = read none _ _
  reservoir_route-IsAnswered (get raw) =
      by_id (IsAnswered p ctx who db none) db raw _ (inl refl) λ id parsed. read none _ _
  reservoir_route-IsAnswered (create body) =
      by_body (IsAnswered p ctx who db (mapped create_reservoir body)) db body _ (inl refl)
        λ input bound.
          called _ created (Reservoir.create p ctx input who) (create_reservoir input)
            (rw bound refl) (λ a. refl) refl
  reservoir_route-IsAnswered (update raw body) =
      let asked = both update_reservoir (parse_id raw) body in
      by_id (IsAnswered p ctx who db asked) db raw _ (inl refl) λ id parsed.
        by_body (IsAnswered p ctx who db asked) db body _ (inl refl) λ input bound.
          called asked success (Reservoir.update p ctx id input who) (update_reservoir id input)
            (rw (parsed, bound) refl) (λ a. refl) refl
  reservoir_route-IsAnswered (transition raw body) =
      let asked = both move_reservoir (parse_id raw) body in
      by_id (IsAnswered p ctx who db asked) db raw _ (inl refl) λ id parsed.
        by_body (IsAnswered p ctx who db asked) db body _ (inl refl) λ input bound.
          called asked success (Reservoir.transition p ctx id input who) (move_reservoir id input)
            (rw (parsed, bound) refl) (λ a. refl) refl
  reservoir_route-IsAnswered (remove raw) = elim (Bool-cases (who.role != "admin")) [
    | inl other ↦ rw other (inl refl)
    | inr admin ↦ rw admin (
        by_id (IsAnswered p ctx who db (mapped delete_reservoir (parse_id raw))) db raw _ (inl refl)
          λ id parsed.
            called _ no_content (Reservoir.delete p ctx id who) (delete_reservoir id)
              (rw parsed refl) (λ a. refl)
              (λ i. (
                sym (forget_unit (Reservoir.delete p ctx id who db).0) i,
                (Reservoir.delete p ctx id who db).1,
              )))
  ]

  gate_route-IsAnswered :
      (action : Action _ _)
      → IsAnswered p ctx who db (gate_request who action) (gate_route p ctx who action db)
  unfolding call Gates.list Gates.get Gates.create Gates.update Gates.transition Gates.remove
  gate_route-IsAnswered (list query) = read none _ _
  gate_route-IsAnswered (get raw) =
      by_id (IsAnswered p ctx who db none) db raw _ (inl refl) λ id parsed. read none _ _
  gate_route-IsAnswered (create body) =
      by_body (IsAnswered p ctx who db (mapped create_gate body)) db body _ (inl refl)
        λ input bound.
          called _ created (Gate.create p ctx input who) (create_gate input) (rw bound refl)
            (λ a. refl) refl
  gate_route-IsAnswered (update raw body) =
      let asked = both update_gate (parse_id raw) body in
      by_id (IsAnswered p ctx who db asked) db raw _ (inl refl) λ id parsed.
        by_body (IsAnswered p ctx who db asked) db body _ (inl refl) λ input bound.
          called asked success (Gate.update p ctx id input who) (update_gate id input)
            (rw (parsed, bound) refl) (λ a. refl) refl
  gate_route-IsAnswered (transition raw body) =
      let asked = both move_gate (parse_id raw) body in
      by_id (IsAnswered p ctx who db asked) db raw _ (inl refl) λ id parsed.
        by_body (IsAnswered p ctx who db asked) db body _ (inl refl) λ input bound.
          called asked success (Gate.transition p ctx id input who) (move_gate id input)
            (rw (parsed, bound) refl) (λ a. refl) refl
  gate_route-IsAnswered (remove raw) = elim (Bool-cases (who.role != "admin")) [
    | inl other ↦ rw other (inl refl)
    | inr admin ↦ rw admin (
        by_id (IsAnswered p ctx who db (mapped delete_gate (parse_id raw))) db raw _ (inl refl)
          λ id parsed.
            called _ no_content (Gate.delete p ctx id who) (delete_gate id) (rw parsed refl)
              (λ a. refl)
              (λ i. (
                sym (forget_unit (Gate.delete p ctx id who db).0) i,
                (Gate.delete p ctx id who db).1,
              )))
  ]

  directive_route-IsAnswered :
      (action : Action _ _)
      → IsAnswered p ctx who db (directive_request who action) (directive_route p ctx who action db)
  unfolding call Directives.list Directives.get Directives.create Directives.update
      Directives.transition Directives.remove
  directive_route-IsAnswered (list query) = read none _ _
  directive_route-IsAnswered (get raw) =
      by_id (IsAnswered p ctx who db none) db raw _ (inl refl) λ id parsed. read none _ _
  directive_route-IsAnswered (create body) =
      by_body (IsAnswered p ctx who db (mapped create_directive body)) db body _ (inl refl)
        λ input bound.
          called _ created (Directive.create p ctx input who) (create_directive input)
            (rw bound refl) (λ a. refl) refl
  directive_route-IsAnswered (update raw body) =
      let asked = both update_directive (parse_id raw) body in
      by_id (IsAnswered p ctx who db asked) db raw _ (inl refl) λ id parsed.
        by_body (IsAnswered p ctx who db asked) db body _ (inl refl) λ input bound.
          called asked success (Directive.update p ctx id input who) (update_directive id input)
            (rw (parsed, bound) refl) (λ a. refl) refl
  directive_route-IsAnswered (transition raw body) =
      let asked = both move_directive (parse_id raw) body in
      by_id (IsAnswered p ctx who db asked) db raw _ (inl refl) λ id parsed.
        by_body (IsAnswered p ctx who db asked) db body _ (inl refl) λ input bound.
          called asked success (Directive.transition p ctx id input who) (move_directive id input)
            (rw (parsed, bound) refl) (λ a. refl) refl
  directive_route-IsAnswered (remove raw) = elim (Bool-cases (who.role != "admin")) [
    | inl other ↦ rw other (inl refl)
    | inr admin ↦ rw admin (
        by_id (IsAnswered p ctx who db (mapped delete_directive (parse_id raw))) db raw _ (inl refl)
          λ id parsed.
            called _ no_content (Directive.delete p ctx id who) (delete_directive id)
              (rw parsed refl) (λ a. refl)
              (λ i. (
                sym (forget_unit (Directive.delete p ctx id who db).0) i,
                (Directive.delete p ctx id who db).1,
              )))
  ]

  confirmation_route-IsAnswered :
      (action : Action _ _)
      → IsAnswered p ctx who db
          (confirmation_request who action)
          (confirmation_route p ctx who action db)
  unfolding call Confirmations.list Confirmations.get Confirmations.create Confirmations.update
      Confirmations.transition Confirmations.remove
  confirmation_route-IsAnswered (list query) = read none _ _
  confirmation_route-IsAnswered (get raw) =
      by_id (IsAnswered p ctx who db none) db raw _ (inl refl) λ id parsed. read none _ _
  confirmation_route-IsAnswered (create body) =
      by_body (IsAnswered p ctx who db (mapped create_confirmation body)) db body _ (inl refl)
        λ input bound.
          called _ created (Confirmation.create p ctx input who) (create_confirmation input)
            (rw bound refl) (λ a. refl) refl
  confirmation_route-IsAnswered (update raw body) =
      let asked = both update_confirmation (parse_id raw) body in
      by_id (IsAnswered p ctx who db asked) db raw _ (inl refl) λ id parsed.
        by_body (IsAnswered p ctx who db asked) db body _ (inl refl) λ input bound.
          called asked success (Confirmation.update p ctx id input who)
            (update_confirmation id input) (rw (parsed, bound) refl) (λ a. refl) refl
  confirmation_route-IsAnswered (transition raw body) =
      let asked = both move_confirmation (parse_id raw) body in
      by_id (IsAnswered p ctx who db asked) db raw _ (inl refl) λ id parsed.
        by_body (IsAnswered p ctx who db asked) db body _ (inl refl) λ input bound.
          called asked success (Confirmation.transition p ctx id input who)
            (move_confirmation id input) (rw (parsed, bound) refl) (λ a. refl) refl
  confirmation_route-IsAnswered (remove raw) = elim (Bool-cases (who.role != "admin")) [
    | inl other ↦ rw other (inl refl)
    | inr admin ↦ rw admin (
        by_id (IsAnswered p ctx who db (mapped delete_confirmation (parse_id raw))) db raw _
          (inl refl)
          λ id parsed.
            called _ no_content (Confirmation.delete p ctx id who) (delete_confirmation id)
              (rw parsed refl) (λ a. refl)
              (λ i. (
                sym (forget_unit (Confirmation.delete p ctx id who db).0) i,
                (Confirmation.delete p ctx id who db).1,
              )))
  ]

  -- A request to a resource either leaves the database as it was, or it has an id that is a positive
  -- number, a body that was bound and, for a deletion, the role of an admin; then it does to the
  -- database exactly what the one call of a service does that it asks for, and its status code is the
  -- one of that call's result.
  pub handle-IsAnswered :
      (endpoint : Endpoint)
      → IsAnswered p ctx who db (request_of who endpoint) (handle p ctx who endpoint db)
  unfolding handle request_of
  handle-IsAnswered (reservoir action) = reservoir_route-IsAnswered action
  handle-IsAnswered (gate action) = gate_route-IsAnswered action
  handle-IsAnswered (directive action) = directive_route-IsAnswered action
  handle-IsAnswered (confirmation action) = confirmation_route-IsAnswered action
