-- ===== src/Handler/Directives.antt =====
-- backend/internal/handler/operation_directive.go
use gb_516_hydropower_gate_d.Prelude.{String, Option, ◌!=◌, string_eq, if◌then◌else◌}
use gb_516_hydropower_gate_d.Dto.{
  PageQuery, TransitionRequest, CreateOperationDirective, UpdateOperationDirective,
}
use gb_516_hydropower_gate_d.Model.{OperationDirective}
use gb_516_hydropower_gate_d.Repository.{Platform, Context, ask}
use gb_516_hydropower_gate_d.Repository.Directives as Repo
use gb_516_hydropower_gate_d.Repository.Paging as Paging
use gb_516_hydropower_gate_d.Service.Common.{Caller}
use gb_516_hydropower_gate_d.Service.Directive as Directive
use gb_516_hydropower_gate_d.Handler.Responses.{
  Handling, success, created, no_content, fail, page_response, bind_page, respond, with_id,
  with_body,
}

module _ (p : Platform) where
  unfoldable pub list : PageQuery → Handling OperationDirective
  list query = respond page_response (ask (Paging.list_directives p (bind_page query)))

  unfoldable pub get : String → Handling OperationDirective
  get raw = with_id raw λ id. respond success (ask (Repo.get p id))

module _ (p : Platform) (ctx : Context) (who : Caller) where
  unfoldable pub create : Option CreateOperationDirective → Handling OperationDirective
  create body = with_body body λ input. respond created (Directive.create p ctx input who)

  unfoldable pub update : String → Option UpdateOperationDirective → Handling OperationDirective
  update raw body =
      with_id raw
        λ id. with_body body λ input. respond success (Directive.update p ctx id input who)

  unfoldable pub transition : String → Option TransitionRequest → Handling OperationDirective
  transition raw body =
      with_id raw
        λ id. with_body body λ input. respond success (Directive.transition p ctx id input who)

  unfoldable pub remove : String → Handling OperationDirective
  remove raw db =
      if who.role != "admin"
      then (fail 403 "forbidden", db)
      else with_id raw (λ id. respond no_content (Directive.delete p ctx id who)) db
