-- ===== src/Handler/Responses.antt =====
-- backend/internal/util/http.go, and what the handlers share (backend/internal/handler/system.go:
-- parseID, bindPage). The message of a failed response is left out.
use gb_516_hydropower_gate_d.Prelude.{
  ℕ, String, List, Option, none, some, ℤ, pos, ltb_ℤ, ◌||◌, if◌then◌else◌, ◌==◌, nat_eq,
}
use gb_516_hydropower_gate_d.Text.Numbers.{parse_uint}
use gb_516_hydropower_gate_d.Failure.{Result, ok, err}
use gb_516_hydropower_gate_d.Dto.{PageQuery}
use gb_516_hydropower_gate_d.Repository.{Db, Exec}
use gb_516_hydropower_gate_d.Repository.Paging.{Page}
use gb_516_hydropower_gate_d.Handler.{handle_error}

-- Envelope
pub data Body (A : Type 0) : Type 0 where
  nothing : Body A
  data_of : A → Body A
  page_of : List A → ℤ → ℤ → ℕ → Body A
  error : String → Body A

pub record Response (A : Type 0) : Type 0 where
  pub status : ℕ
  pub body : Body A

module _ {A : Type 0} where
  -- OK, Created, NoContent, Fail and Page
  abbrev pub success : A → Response A
  success item = record { status = 200; body = data_of item }

  abbrev pub created : A → Response A
  created item = record { status = 201; body = data_of item }

  abbrev pub no_content : Unit {0} → Response A
  no_content u = record { status = 204; body = nothing }

  abbrev pub fail : ℕ → String → Response A
  fail status code = record { status = status; body = error code }

  abbrev pub page_response : Page A → Response A
  page_response page = record {
    status = 200;
    body = page_of page.items page.page page.page_size page.total;
  }

  abbrev pub fail_with : ℕ × String → Response A
  fail_with (status, code) = fail status code

-- A handler: it answers, and leaves a database.
abbrev pub Handling : Type 0 → Type 0
Handling A = Db → Response A × Db

-- strconv.ParseUint, and the test for 0
abbrev pub positive : Option ℕ → Option ℕ
positive none = none
positive (some n) = if n == 0 then none else some n

-- parseID, but for its response
unfoldable pub parse_id : String → Option ℕ
parse_id raw = positive (parse_uint raw)

-- bindPage, after ShouldBindQuery
unfoldable pub bind_page : PageQuery → PageQuery
bind_page query = record query {
  page = if ltb_ℤ query.page (pos 1) then pos 1 else query.page;
  page_size =
      if ltb_ℤ query.page_size (pos 1) || ltb_ℤ (pos 100) query.page_size
      then pos 20
      else query.page_size;
}

module _ {A B : Type 0} where
  abbrev pub answer : (A → Response B) → Result A → Response B
  answer render (ok a) = render a
  answer render (err e) = fail_with (handle_error e)

  -- The call of a service: `if err != nil { handleError(c, err); return }`, and then the response.
  abbrev pub respond : (A → Response B) → Exec A → Handling B
  respond render m db = (answer render (m db).0, (m db).1)

module _ {A : Type 0} where
  abbrev pub if_some : {I : Type 0} → Response A → Option I → (I → Handling A) → Handling A
  if_some refusal none f db = (refusal, db)
  if_some refusal (some i) f db = f i db

  -- `id, ok := parseID(c); if !ok { return }`
  unfoldable pub with_id : String → (ℕ → Handling A) → Handling A
  unfolding parse_id
  with_id raw f = if_some (fail 400 "invalid_id") (parse_id raw) f

  -- ShouldBindJSON into a body; none is its error.
  unfoldable pub with_body : {I : Type 0} → Option I → (I → Handling A) → Handling A
  with_body body f = if_some (fail 400 "invalid_request") body f
