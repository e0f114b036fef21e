-- ===== src/Handler/Reservoirs.antt =====
-- backend/internal/handler/reservoir.go
use gb_516_hydropower_gate_d.Prelude.{String, Option, ◌!=◌, string_eq, if◌then◌else◌}
use gb_516_hydropower_gate_d.Dto.{PageQuery, TransitionRequest, CreateReservoir, UpdateReservoir}
use gb_516_hydropower_gate_d.Model.{Reservoir}
use gb_516_hydropower_gate_d.Repository.{Platform, Context, ask, reservoirs}
use gb_516_hydropower_gate_d.Repository.Store as Store
use gb_516_hydropower_gate_d.Repository.Paging as Paging
use gb_516_hydropower_gate_d.Service.Common.{Caller}
use gb_516_hydropower_gate_d.Service.Reservoir as Reservoir
use gb_516_hydropower_gate_d.Handler.Responses.{
  Handling, success, created, no_content, fail, page_response, bind_page, respond, with_id,
  with_body,
}

module _ (p : Platform) where
  unfoldable pub list : PageQuery → Handling Reservoir
  list query = respond page_response (ask (Paging.list p reservoirs (bind_page query)))

  unfoldable pub get : String → Handling Reservoir
  get raw = with_id raw λ id. respond success (ask (Store.get p reservoirs id))

module _ (p : Platform) (ctx : Context) (who : Caller) where
  unfoldable pub create : Option CreateReservoir → Handling Reservoir
  create body = with_body body λ input. respond created (Reservoir.create p ctx input who)

  unfoldable pub update : String → Option UpdateReservoir → Handling Reservoir
  update raw body =
      with_id raw
        λ id. with_body body λ input. respond success (Reservoir.update p ctx id input who)

  unfoldable pub transition : String → Option TransitionRequest → Handling Reservoir
  transition raw body =
      with_id raw
        λ id. with_body body λ input. respond success (Reservoir.transition p ctx id input who)

  unfoldable pub remove : String → Handling Reservoir
  remove raw db =
      if who.role != "admin"
      then (fail 403 "forbidden", db)
      else with_id raw (λ id. respond no_content (Reservoir.delete p ctx id who)) db
