-- ===== src/Witness/Pages.antt =====
-- Requests to resources, and pages, at a small database.
use gb_516_hydropower_gate_d.Prelude.{
  ◌≡◌, ◌≢◌, ◌≤◌, ◌<◌, ◌^◌, ◌*◌, ◌≤ℤ◌, ◌⊎◌, ℕ, refl, some, List, [], ◌∷◌, pos, negsuc, ℤ, length,
  arith,
}
use gb_516_hydropower_gate_d.Text.{trim_space, to_lower}
use gb_516_hydropower_gate_d.Text.Numbers.{parse_uint}
use gb_516_hydropower_gate_d.Dto.{PageQuery}
use gb_516_hydropower_gate_d.Failure.{ok}
use gb_516_hydropower_gate_d.Model.{GateUnit}
use gb_516_hydropower_gate_d.Orm.Memory.{memory}
use gb_516_hydropower_gate_d.Repository.{Db, gates}
use gb_516_hydropower_gate_d.Repository.Paging.{
  Page, list, offset_of, is_searched, is_about, newest, normal_size, entity_history,
}
use gb_516_hydropower_gate_d.Repository.Paging.Listing.{IsClamped}
use gb_516_hydropower_gate_d.Repository.Paging.Contents.{
  IsPage, IsHistoryOf, list-IsPage, entity_history-IsHistoryOf,
}
use gb_516_hydropower_gate_d.Handler.Responses.{with_id, parse_id}
use gb_516_hydropower_gate_d.Handler.Gates as Gates
use gb_516_hydropower_gate_d.Repository.Paging as Paging
use gb_516_hydropower_gate_d.Service.Reports as Service
use gb_516_hydropower_gate_d.Service.Reports.{hour, audit_window}
use gb_516_hydropower_gate_d.Handler.Reports as Reports
use gb_516_hydropower_gate_d.Handler.Reports.History.{answered_history, read_limits}
use gb_516_hydropower_gate_d.Handler.Responses.{Response, data_of}
use gb_516_hydropower_gate_d.Dto.{AuditSummaryQuery, window, normalized_limit}
use gb_516_hydropower_gate_d.Model.{AuditLog}
use Prim.Native.String.{len}
use gb_516_hydropower_gate_d.Handler.Endpoints.{
  Endpoint, gate, transition, handle, request_of, IsAnswered,
}
use gb_516_hydropower_gate_d.Handler.Answers.{handle-IsAnswered}
use gb_516_hydropower_gate_d.Handler.Refusals.{IsReread, refused_unchanged}
use gb_516_hydropower_gate_d.Witness.Data.{platform, context, caller, to_status, database, gate_of}

abbrev here : Db
here = record (database "open" "draft" "pending") {
  audits =
      record {
        id = 1;
        request_id = "r";
        actor = "anna";
        action = "create";
        entity_type = "GateUnit";
        entity_id = 1;
        before_state = "";
        after_state = "open";
        detail = "";
        created_at = 5;
      }
      ∷ [];
}

abbrev first_page : PageQuery
first_page = record { page = pos 1; page_size = pos 10; search = ""; status = "open" }

abbrev gate_page : Page GateUnit
gate_page = record { items = gate_of "open" 1 ∷ []; total = 1; page = pos 1; page_size = pos 10 }

listed : list platform gates first_page here ≡ ok gate_page
unfolding list memory trim_space to_lower offset_of is_searched
listed = refl

list-IsPage_example : IsPage platform gates first_page here gate_page
list-IsPage_example = list-IsPage platform gates first_page here listed

found : entity_history platform "GateUnit" 1 (pos 500) here ≡ ok here.audits
unfolding entity_history memory
found = refl

entity_history-IsHistoryOf_example :
    (size : ℤ) × IsClamped (pos 500) size
    × IsHistoryOf "GateUnit" 1 size here here.audits
    × (length here.audits ≤ 100)
entity_history-IsHistoryOf_example =
    entity_history-IsHistoryOf platform "GateUnit" 1 (pos 500) here found

abbrev lock_gate : Endpoint
lock_gate = gate (transition "1" (some (to_status "locked" 1)))

handle-IsAnswered_example :
    IsAnswered platform context
      (caller "anna" "operator")
      here
      (request_of (caller "anna" "operator") lock_gate)
      (handle platform context (caller "anna" "operator") lock_gate here)
handle-IsAnswered_example =
    handle-IsAnswered platform context (caller "anna" "operator") here lock_gate

abbrev no_gate : Endpoint
no_gate = gate (transition "0" (some (to_status "locked" 1)))

bad_request : 400 ≤ (handle platform context (caller "anna" "operator") no_gate here).0
unfolding handle Gates.transition with_id parse_id parse_uint
bad_request = omega arith

refused_unchanged_example :
    ((handle platform context (caller "anna" "operator") no_gate here).1 ≡ here)
    ⊎ IsReread platform context
        (caller "anna" "operator")
        (request_of (caller "anna" "operator") no_gate)
        here
        (handle platform context (caller "anna" "operator") no_gate here).1
refused_unchanged_example =
    refused_unchanged platform context (caller "anna" "operator") refl no_gate here bad_request

-- The client asks for 500 entries about gate 1, and gets the one that there is.
abbrev asked : Response (List AuditLog)
asked = Reports.entity_history platform "1" " GateUnit " (record { limit = pos 500 }) here

found_here : asked.body ≡ data_of here.audits
unfolding Reports.entity_history Service.entity_history Paging.entity_history parse_id parse_uint
    trim_space memory
found_here = refl

answered_history_example :
    (id : ℕ) × (parse_id "1" ≡ some id)
    × (id ≢ 0)
    × (id < 2 ^ 64)
    × (trim_space " GateUnit " ≢ "")
    × (len (trim_space " GateUnit ") ≤ 80)
    × ((size : ℤ) × IsClamped (pos 500) size
        × IsHistoryOf (trim_space " GateUnit ") id size here here.audits)
    × (length here.audits ≤ 100)
answered_history_example =
    answered_history platform "1" " GateUnit " (record { limit = pos 500 }) here found_here

abbrev thousands : AuditSummaryQuery
thousands = record { window_hours = pos 5000 }

read_limits_example :
    ((hours : ℕ) × (window thousands ≡ pos (hours * hour)) × (1 ≤ hours) × (hours ≤ 2160))
    × (audit_window (window thousands) ≡ window thousands)
    × (pos 1 ≤ℤ normalized_limit (record { limit = negsuc 0 }))
    × (normalized_limit (record { limit = negsuc 0 }) ≤ℤ pos 100)
    × (normal_size (normalized_limit (record { limit = negsuc 0 }))
        ≡ normalized_limit (record { limit = negsuc 0 }))
read_limits_example = read_limits thousands (record { limit = negsuc 0 })
