-- ===== src/Repository/Paging.antt =====
-- backend/internal/repository: the lists that are read page by page (base.go: List, normalizePage;
-- operation_directive.go: List; security.go: ListAudits, EntityHistory).
pub mod Bounds
pub mod Contents
pub mod Slices
pub mod Listing
use gb_516_hydropower_gate_d.Prelude.{
  ℕ, ◌+◌, ◌-◌, ◌*◌, ◌%◌, ◌^◌, String, Bool, true, ◌&&◌, ◌||◌, ◌==◌, ◌!=◌, nat_eq, string_eq, List,
  [], ◌∷◌, ℤ, pos, pos_part, sub_ℕ, ltb, ltb_ℤ, if◌then◌else◌,
}
use gb_516_hydropower_gate_d.Text.{trim_space, to_lower}
use gb_516_hydropower_gate_d.Text.Split.{prepend}
use gb_516_hydropower_gate_d.Failure.{Result, ok, err, ◌and_then◌}
use gb_516_hydropower_gate_d.Dto.{PageQuery}
use gb_516_hydropower_gate_d.Model.{OperationDirective, DirectiveApproval, AuditLog}
use gb_516_hydropower_gate_d.Orm.{Order, from_answer}
use gb_516_hydropower_gate_d.Repository.Database.{Platform, Db}
use gb_516_hydropower_gate_d.Repository.Tables.{Aggregate, schema, directives, approvals, audits}
use gb_516_hydropower_gate_d.Repository.Directives.{with_approvals}

pub record Page (T : Type 0) : Type 0 where
  pub items : List T
  pub total : ℕ
  pub page : ℤ
  pub page_size : ℤ

-- normalizePage
abbrev pub normal_number : ℤ → ℤ
normal_number page = if ltb_ℤ page (pos 1) then pos 1 else page

abbrev pub normal_size : ℤ → ℤ
normal_size size =
    let shown = if ltb_ℤ size (pos 1) then pos 20 else size in
    if ltb_ℤ (pos 100) shown then pos 100 else shown

-- A number that does not fit into an int of 64 bits wraps around.
abbrev pub wrap : ℕ → ℤ
wrap n = let m = n % 2 ^ 64 in if ltb m (2 ^ 63) then pos m else sub_ℕ m (2 ^ 64)

-- (page - 1) * pageSize, where both are 1 or more
unfoldable pub offset_of : ℤ → ℤ → ℤ
offset_of page size = wrap ((pos_part page - 1) * pos_part size)

-- "%" + search + "%"
abbrev pub wildcard : String → String
wildcard search = String.◌∷◌ "%" (prepend search "%")

module _ (p : Platform) {T : Type 0} (a : Aggregate T) where
  -- The two conditions of List; each is left out for an empty text.
  unfoldable pub is_searched : String → T → Bool
  is_searched search row =
      let text = trim_space (to_lower p.unicode search) in
      if text != ""
      then p.gorm.like (p.gorm.sql_lower (a.base row).code) (wildcard text)
        || p.gorm.like (p.gorm.sql_lower (a.base row).name) (wildcard text)
      else true

  abbrev pub has_status : String → T → Bool
  has_status status row =
      let text = trim_space status in if text != "" then (a.base row).status == text else true

  abbrev pub is_listed : PageQuery → T → Bool
  is_listed query row = is_searched query.search row && has_status query.status row

  -- "updated_at DESC, id DESC"
  abbrev pub latest : Order T
  latest = record { first = λ row. (a.base row).updated_at; second = λ row. (a.base row).id }

  unfoldable pub list : PageQuery → Db → Result (Page T)
  list query db =
      let page = normal_number query.page in
      let size = normal_size query.page_size in
      from_answer (p.gorm.count T (schema a) (is_listed query) (a.rows db)) and_then λ total.
      from_answer (
        p.gorm.find_page T (schema a) (is_listed query) latest (offset_of page size) size
          (a.rows db))
      and_then λ items. ok (record { items = items; total = total; page = page; page_size = size })

module _ (p : Platform) where
  -- The loop that reads the approvals of each directive of a page.
  unfoldable pub load_approvals : List OperationDirective → Db → Result (List OperationDirective)
  load_approvals [] db = ok []
  load_approvals (item ∷ items) db =
      let rest = load_approvals items db in
      with_approvals item (
        p.gorm.find_all DirectiveApproval approvals (λ row. row.directive_id == item.id)
          db.approvals)
      and_then λ loaded. rest and_then λ others. ok (loaded ∷ others)

  -- operationDirectiveRepository.List
  unfoldable pub list_directives : PageQuery → Db → Result (Page OperationDirective)
  unfolding list load_approvals
  list_directives query db = list p directives query db and_then λ page.
      load_approvals page.items db and_then λ items. ok (record page { items = items })

  abbrev pub is_audit_listed : String → AuditLog → Bool
  is_audit_listed search row =
      if search != ""
      then p.gorm.like row.actor (wildcard search)
        || p.gorm.like row.entity_type (wildcard search)
        || p.gorm.like row.action (wildcard search)
      else true

  -- "created_at DESC"
  abbrev pub newest : Order AuditLog
  newest = record { first = λ row. row.created_at; second = λ row. 0 }

  -- ListAudits: the logs and their total
  unfoldable pub list_audits : ℤ → ℤ → String → Db → Result (List AuditLog × ℕ)
  list_audits number size search db =
      let page = normal_number number in
      let page_size = normal_size size in
      from_answer (p.gorm.count AuditLog audits (is_audit_listed search) db.audits)
      and_then λ total.
          from_answer (
            p.gorm.find_page AuditLog audits (is_audit_listed search) newest
              (offset_of page page_size) page_size db.audits)
          and_then λ logs. ok (logs, total)

  abbrev pub is_about : String → ℕ → AuditLog → Bool
  is_about entity_type entity_id row = row.entity_type == entity_type && row.entity_id == entity_id

  -- EntityHistory
  unfoldable pub entity_history : String → ℕ → ℤ → Db → Result (List AuditLog)
  entity_history entity_type entity_id limit db = from_answer (
      p.gorm.find_page AuditLog audits (is_about entity_type entity_id) newest (pos 0)
        (normal_size limit) db.audits)
