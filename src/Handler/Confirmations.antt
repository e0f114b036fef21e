-- ===== src/Handler/Confirmations.antt =====
-- backend/internal/handler/execution_confirmation.go
use gb_516_hydropower_gate_d.Prelude.{String, Option, ◌!=◌, string_eq, if◌then◌else◌}
use gb_516_hydropower_gate_d.Dto.{
  PageQuery, TransitionRequest, CreateExecutionConfirmation, UpdateExecutionConfirmation,
}
use gb_516_hydropower_gate_d.Model.{ExecutionConfirmation}
use gb_516_hydropower_gate_d.Repository.{Platform, Context, ask, confirmations}
use gb_516_hydropower_gate_d.Repository.Store as Store
use gb_516_hydropower_gate_d.Repository.Paging as Paging
use gb_516_hydropower_gate_d.Service.Common.{Caller}
use gb_516_hydropower_gate_d.Service.Confirmation as Confirmation
use gb_516_hydropower_gate_d.Handler.Responses.{
  Handling, success, created, no_content, fail, page_response, bind_page, respond, with_id,
  with_body,
}

module _ (p : Platform) where
  unfoldable pub list : PageQuery → Handling ExecutionConfirmation
  list query = respond page_response (ask (Paging.list p confirmations (bind_page query)))

  unfoldable pub get : String → Handling ExecutionConfirmation
  get raw = with_id raw λ id. respond success (ask (Store.get p confirmations id))

module _ (p : Platform) (ctx : Context) (who : Caller) where
  unfoldable pub create : Option CreateExecutionConfirmation → Handling ExecutionConfirmation
  create body = with_body body λ input. respond created (Confirmation.create p ctx input who)

  unfoldable pub update :
      String → Option UpdateExecutionConfirmation → Handling ExecutionConfirmation
  update raw body =
      with_id raw
        λ id. with_body body λ input. respond success (Confirmation.update p ctx id input who)

  unfoldable pub transition : String → Option TransitionRequest → Handling ExecutionConfirmation
  transition raw body =
      with_id raw
        λ id. with_body body λ input. respond success (Confirmation.transition p ctx id input who)

  unfoldable pub remove : String → Handling ExecutionConfirmation
  remove raw db =
      if who.role != "admin"
      then (fail 403 "forbidden", db)
      else with_id raw (λ id. respond no_content (Confirmation.delete p ctx id who)) db
