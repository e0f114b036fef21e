-- ===== src/Handler/Reports.antt =====
-- backend/internal/handler/system.go: Audits and EntityHistory, which only read.
pub mod History
use Prim.Native.String.{len}
use gb_516_hydropower_gate_d.Prelude.{
  ℕ, String, ◌||◌, ◌==◌, string_eq, ltb, Option, none, some, List, if◌then◌else◌,
}
use gb_516_hydropower_gate_d.Text.{trim_space}
use gb_516_hydropower_gate_d.Dto.{PageQuery, EntityHistoryQuery, normalized_limit}
use gb_516_hydropower_gate_d.Model.{AuditLog}
use gb_516_hydropower_gate_d.Repository.{Platform, Db}
use gb_516_hydropower_gate_d.Service.Reports as Reports
use gb_516_hydropower_gate_d.Handler.Responses.{
  Response, page_of, success, fail, answer, parse_id, bind_page,
}

module _ (p : Platform) where
  -- Audits, for what ShouldBindQuery has read
  unfoldable pub audits : PageQuery → Db → Response AuditLog
  audits read db =
      let query = bind_page read in
      answer
        (λ found. record {
          status = 200;
          body = page_of found.0 query.page query.page_size found.1;
        })
        (Reports.list_audits p query.page query.page_size query.search db)

  abbrev pub history_of : Option ℕ → String → EntityHistoryQuery → Db → Response (List AuditLog)
  history_of none entity_type query db = fail 400 "invalid_id"
  history_of (some id) entity_type query db =
      if entity_type == "" || ltb 80 (len entity_type)
      then fail 400 "invalid_entity_type"
      else answer success (Reports.entity_history p entity_type id (normalized_limit query) db)

  -- EntityHistory, for the two texts of the path and the query
  unfoldable pub entity_history :
      String → String → EntityHistoryQuery → Db → Response (List AuditLog)
  entity_history raw entity_type query db =
      history_of (parse_id raw) (trim_space entity_type) query db
