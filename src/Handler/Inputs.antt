-- ===== src/Handler/Inputs.antt =====
-- What the handlers make of an id and of a page query.
use gb_516_hydropower_gate_d.Prelude.{
  ℕ, ◌^◌, ◌<◌, ◌≡◌, ◌≢◌, arith, String, Option, none, some, pos, ◌≤ℤ◌, nat_eq,
}
use gb_516_hydropower_gate_d.Text.{decimal}
use gb_516_hydropower_gate_d.Text.Numbers.{parse_uint, parse_uint-decimal, parse_uint-bounded}
use gb_516_hydropower_gate_d.Dto.{PageQuery}
use gb_516_hydropower_gate_d.Repository.Paging.{normal_number, normal_size}
use gb_516_hydropower_gate_d.Handler.Responses.{positive, parse_id, bind_page}

positive-eq-some : (o : Option ℕ) {n : ℕ} → positive o ≡ some n → (n ≢ 0) × (o ≡ some n)
positive-eq-some none h = cc
positive-eq-some (some m) h = (ground (arith, h), ground (arith, h))

-- The id of a record, as the backend prints it, is read back from the path of a request.
pub parse_id-decimal : (id : ℕ) → id ≢ 0 → id < 2 ^ 64 → parse_id (decimal id) ≡ some id
unfolding parse_id
parse_id-decimal id some_id fits = rw (parse_uint-decimal id fits) (ground (arith, some_id))

-- An id that is accepted is a positive number of 64 bits.
pub parse_id-bounded : (raw : String) {id : ℕ} → parse_id raw ≡ some id → (id ≢ 0) × (id < 2 ^ 64)
unfolding parse_id
parse_id-bounded raw h =
    let (some_id, parsed) = positive-eq-some (parse_uint raw) h in
    (some_id, parse_uint-bounded raw parsed)

-- Whatever a client asks for, the handler's page is 1 or more and its size 1 to 100; and the repository,
-- which checks both again, changes neither.
pub bind_page-normal :
    (query : PageQuery)
    → (pos 1 ≤ℤ (bind_page query).page)
      × (pos 1 ≤ℤ (bind_page query).page_size)
      × ((bind_page query).page_size ≤ℤ pos 100)
      × (normal_number (bind_page query).page ≡ (bind_page query).page)
      × (normal_size (bind_page query).page_size ≡ (bind_page query).page_size)
unfolding bind_page
bind_page-normal query = (ground arith, ground arith, ground arith, ground arith, ground arith)
