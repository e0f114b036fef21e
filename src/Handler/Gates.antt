-- ===== src/Handler/Gates.antt =====
-- backend/internal/handler/gate_unit.go
use gb_516_hydropower_gate_d.Prelude.{String, Option, ◌!=◌, string_eq, if◌then◌else◌}
use gb_516_hydropower_gate_d.Dto.{PageQuery, TransitionRequest, CreateGateUnit, UpdateGateUnit}
use gb_516_hydropower_gate_d.Model.{GateUnit}
use gb_516_hydropower_gate_d.Repository.{Platform, Context, ask, gates}
use gb_516_hydropower_gate_d.Repository.Store as Store
use gb_516_hydropower_gate_d.Repository.Paging as Paging
use gb_516_hydropower_gate_d.Service.Common.{Caller}
use gb_516_hydropower_gate_d.Service.Gate as Gate
use gb_516_hydropower_gate_d.Handler.Responses.{
  Handling, success, created, no_content, fail, page_response, bind_page, respond, with_id,
  with_body,
}

module _ (p : Platform) where
  unfoldable pub list : PageQuery → Handling GateUnit
  list query = respond page_response (ask (Paging.list p gates (bind_page query)))

  unfoldable pub get : String → Handling GateUnit
  get raw = with_id raw λ id. respond success (ask (Store.get p gates id))

module _ (p : Platform) (ctx : Context) (who : Caller) where
  unfoldable pub create : Option CreateGateUnit → Handling GateUnit
  create body = with_body body λ input. respond created (Gate.create p ctx input who)

  unfoldable pub update : String → Option UpdateGateUnit → Handling GateUnit
  update raw body =
      with_id raw λ id. with_body body λ input. respond success (Gate.update p ctx id input who)

  unfoldable pub transition : String → Option TransitionRequest → Handling GateUnit
  transition raw body =
      with_id raw λ id. with_body body λ input. respond success (Gate.transition p ctx id input who)

  unfoldable pub remove : String → Handling GateUnit
  remove raw db =
      if who.role != "admin"
      then (fail 403 "forbidden", db)
      else with_id raw (λ id. respond no_content (Gate.delete p ctx id who)) db
