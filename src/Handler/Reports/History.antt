-- ===== src/Handler/Reports/History.antt =====
-- What the readers of the audit log make of a client's limits, and what the history of an entity holds.
use Prim.Native.String.{len}
use gb_516_hydropower_gate_d.Prelude.{
  ℤ, subst, ℕ, ◌*◌, ◌≤◌, ◌<◌, ◌^◌, ◌≡◌, ◌≢◌, refl, String, Bool, true, false, ◌||◌, ◌==◌, nat_eq,
  string_eq, ltb, Option, none, some, List, length, pos, ◌≤ℤ◌, arith, eq_iff, if◌then◌else◌,
}
use gb_516_hydropower_gate_d.Text.{trim_space}
use gb_516_hydropower_gate_d.Failure.{Error, Result, ok, err, invalid_input}
use gb_516_hydropower_gate_d.Dto.{
  AuditSummaryQuery, EntityHistoryQuery, hours_of, window, normalized_limit,
}
use gb_516_hydropower_gate_d.Model.{AuditLog}
use gb_516_hydropower_gate_d.Repository.{Platform, Db}
use gb_516_hydropower_gate_d.Repository.Paging.{normal_size, is_about, newest}
use gb_516_hydropower_gate_d.Repository.Paging as Paging
use gb_516_hydropower_gate_d.Repository.Paging.Contents.{IsHistoryOf, entity_history-IsHistoryOf}
use gb_516_hydropower_gate_d.Repository.Paging.Listing.{
  IsClamped, normal_size-IsClamped, IsClamped-twice,
}
use gb_516_hydropower_gate_d.Service.Reports.{hour, audit_window}
use gb_516_hydropower_gate_d.Service.Reports as Reports
use gb_516_hydropower_gate_d.Handler.Responses.{Response, data_of, success, fail, answer, parse_id}
use gb_516_hydropower_gate_d.Handler.Inputs.{parse_id-bounded}
use gb_516_hydropower_gate_d.Handler.Reports.{history_of, entity_history}

hours_bounded : (q : AuditSummaryQuery) → (1 ≤ hours_of q) × (hours_of q ≤ 2160)
hours_bounded q = (ground arith, ground arith)

hours_kept : (n : ℕ) → (1 ≤ n) × (n ≤ 2160) → audit_window (pos (n * hour)) ≡ pos (n * hour)
unfolding audit_window
hours_kept n (low, high) = ground (arith, low, high)

-- Whatever a client asks for, the handler's window is 1 to 2160 whole hours and its limit is 1 to 100; and
-- the service and the repository, which check them again, change neither.
pub read_limits :
    (summary : AuditSummaryQuery) (history : EntityHistoryQuery)
    → ((hours : ℕ) × (window summary ≡ pos (hours * hour)) × (1 ≤ hours) × (hours ≤ 2160))
      × (audit_window (window summary) ≡ window summary)
      × (pos 1 ≤ℤ normalized_limit history)
      × (normalized_limit history ≤ℤ pos 100)
      × (normal_size (normalized_limit history) ≡ normalized_limit history)
read_limits summary history = (
  (hours_of summary, refl, (hours_bounded summary).0, (hours_bounded summary).1),
  hours_kept (hours_of summary) (hours_bounded summary),
  ground arith,
  ground arith,
  ground arith,
)

answered_data : {A : Type 0} (r : Result A) {a : A} → (answer success r).body ≡ data_of a → r ≡ ok a
answered_data (ok b) h = cc
answered_data (err e) h = cc

not_refused :
    {A : Type 0} (b : Bool) (status : ℕ) (code : String) (rest : Response A) {a : A}
    → (if b then fail status code else rest).body ≡ data_of a
    → (b ≡ false) × (rest.body ≡ data_of a)
not_refused true status code rest h = cc
not_refused false status code rest h = (refl, h)

not_err :
    {A : Type 0} (b : Bool) (e : Error) (rest : Result A) {a : A}
    → (if b then err e else rest) ≡ ok a
    → rest ≡ ok a
not_err true e rest h = cc
not_err false e rest h = h

accepted_type :
    (text : String) → (text == "" || ltb 80 (len text)) ≡ false → (text ≢ "") × (len text ≤ 80)
accepted_type text h = (ground (arith, h, eq_iff text ""), ground (arith, h))

normalized_limit-IsClamped :
    (query : EntityHistoryQuery) → IsClamped query.limit (normalized_limit query)
normalized_limit-IsClamped query =
    let same : normal_size query.limit ≡ normalized_limit query = ground arith in
    subst (IsClamped query.limit) same (normal_size-IsClamped query.limit)

module _ (p : Platform) where
  -- A success of the history has a valid id and a trimmed type of 1 to 80 bytes, and it holds what the
  -- repository has found for them.
  history_of-found :
      (id : Option ℕ) (entity_type : String) (query : EntityHistoryQuery) (db : Db)
      {logs : List AuditLog}
      → (history_of p id entity_type query db).body ≡ data_of logs
      → (n : ℕ) × (id ≡ some n)
        × (entity_type ≢ "")
        × (len entity_type ≤ 80)
        × (Paging.entity_history p entity_type n (normalized_limit query) db ≡ ok logs)
  unfolding Reports.entity_history
  history_of-found none entity_type query db h = cc
  history_of-found (some id) entity_type query db h =
      let (accepted, rest) =
        not_refused (entity_type == "" || ltb 80 (len entity_type)) 400 "invalid_entity_type"
          (answer success (Reports.entity_history p entity_type id (normalized_limit query) db))
          h in
      let (some_type, short) = accepted_type entity_type accepted in
      let found =
        not_err (id == 0 || entity_type == "") invalid_input
          (Paging.entity_history p entity_type id (normalized_limit query) db)
          (answered_data _ rest) in
      (id, refl, some_type, short, found)

  -- The logs that a request for the history of an entity is answered with: the path has an id of 64
  -- bits that is not 0, and a type of 1 to 80 bytes when it is trimmed; the logs are about that entity
  -- only, newest first, and as many as there are, up to the limit of the request, which is 20 below 1
  -- and 100 at most.
  pub answered_history :
      (raw entity_type : String) (query : EntityHistoryQuery) (db : Db) {logs : List AuditLog}
      → (entity_history p raw entity_type query db).body ≡ data_of logs
      → (id : ℕ) × (parse_id raw ≡ some id)
        × (id ≢ 0)
        × (id < 2 ^ 64)
        × (trim_space entity_type ≢ "")
        × (len (trim_space entity_type) ≤ 80)
        × ((size : ℤ) × IsClamped query.limit size
            × IsHistoryOf (trim_space entity_type) id size db logs)
        × (length logs ≤ 100)
  unfolding entity_history
  answered_history raw entity_type query db {logs} h =
      let (id, parsed, some_type, short, found) =
        history_of-found (parse_id raw) (trim_space entity_type) query db h in
      let (some_id, fits) = parse_id-bounded raw parsed in
      let (size, clamped, history, few) =
        entity_history-IsHistoryOf p (trim_space entity_type) id (normalized_limit query) db
          found in
      (
        id,
        parsed,
        some_id,
        fits,
        some_type,
        short,
        (
          size,
          IsClamped-twice query.limit (normalized_limit query) size
              (normalized_limit-IsClamped query) clamped,
          history,
        ),
        few,
      )
