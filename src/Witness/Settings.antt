-- ===== src/Witness/Settings.antt =====
-- Settings read from small environments, lists of proxies, request ids and numbers.
use gb_516_hydropower_gate_d.Prelude.{
  ◌≡◌, ◌≢◌, ◌↔◌, ◌^◌, ◌<◌, refl, String, Option, none, some, List, [], ◌∷◌, pos, All, ◌==◌,
  string_eq, if◌then◌else◌, ℕ, arith, ◌≤ℤ◌,
}
use gb_516_hydropower_gate_d.Text.{ascii_only, trim_space, to_lower, decimal}
use gb_516_hydropower_gate_d.Text.Split.{split, join, holds}
use gb_516_hydropower_gate_d.Text.Numbers.{parse_uint}
use gb_516_hydropower_gate_d.Config.{
  Process, Config, MapOrder, validate, load, settings, invalid, short_secret, empty_app_name,
  empty_port, not_positive, split_csv,
}
use gb_516_hydropower_gate_d.Config.Valid.{IsValid}
use gb_516_hydropower_gate_d.Config.Safe.{validate-IsValid}
use gb_516_hydropower_gate_d.Config.Causes.{load-causes}
use gb_516_hydropower_gate_d.Config.Lists.{IsItem, split_csv-join, split_csv-IsItem}
use gb_516_hydropower_gate_d.Middleware.RequestId.{normalize_request_id, all_runes, is_id_rune}
use gb_516_hydropower_gate_d.Middleware.RequestId.Safe.{IsId, request_ids}
use gb_516_hydropower_gate_d.Dto.{PageQuery}
use gb_516_hydropower_gate_d.Repository.Paging.{normal_number, normal_size}
use gb_516_hydropower_gate_d.Handler.Responses.{parse_id, bind_page}
use gb_516_hydropower_gate_d.Handler.Inputs.{parse_id-decimal, parse_id-bounded, bind_page-normal}

abbrev secret_only : String → String → Option String
secret_only secret key = if key == "JWT_SECRET" then some secret else none

abbrev pub process_with : String → Process
process_with secret = record {
  unicode = ascii_only;
  lookup_env = secret_only secret;
  parse_duration = λ text. none;
  seconds = λ d. d;
}

abbrev pub in_order : MapOrder
in_order = record { order = λ ts. ts; any-order = λ q ts. refl }

abbrev pub defaults : Config
defaults = settings (process_with "a secret of some length")

validate-IsValid_example :
    (validate (process_with "a secret of some length") in_order defaults ≡ none)
    ↔ IsValid (process_with "a secret of some length") defaults
validate-IsValid_example =
    validate-IsValid (process_with "a secret of some length") in_order defaults

short_is_refused : load (process_with "short") in_order ≡ invalid short_secret
unfolding load validate trim_space to_lower
short_is_refused = refl

load-causes_example :
    (short_secret ≢ empty_app_name)
    × (short_secret ≢ empty_port)
    × ((n : String) → short_secret ≢ not_positive n)
load-causes_example = load-causes (process_with "short") in_order short_is_refused

abbrev proxies : List String
proxies = "10.0.0.1" ∷ "10.0.0.2" ∷ []

proxies-IsItem : All IsItem proxies
unfolding trim_space holds
proxies-IsItem = (
  record { trimmed = refl; not_empty = cc; whole = refl },
  (record { trimmed = refl; not_empty = cc; whole = refl }, tt),
)

split_csv-join_example : split_csv (join "," proxies) ≡ proxies
split_csv-join_example = split_csv-join proxies proxies-IsItem

split_csv-IsItem_example :
    All IsItem (split_csv " a,, b ")
    × (split_csv (join "," (split_csv " a,, b ")) ≡ split_csv " a,, b ")
split_csv-IsItem_example = split_csv-IsItem " a,, b "

split_csv_test : split_csv " a,, b " ≡ "a" ∷ "b" ∷ []
unfolding split_csv split trim_space
split_csv_test = refl

fresh-IsId : IsId "0f8e-12"
unfolding all_runes is_id_rune
fresh-IsId = record { not_empty = cc; short = omega arith; runes = refl }

request_ids_example :
    IsId (normalize_request_id "0f8e-12" "abc 1")
    × (normalize_request_id "77" (normalize_request_id "0f8e-12" "abc 1")
        ≡ normalize_request_id "0f8e-12" "abc 1")
request_ids_example = request_ids "0f8e-12" "77" "abc 1" fresh-IsId

parse_id-decimal_example : parse_id (decimal 1204) ≡ some 1204
parse_id-decimal_example = parse_id-decimal 1204 (omega arith) (omega arith)

leading_zeros : parse_id "007" ≡ some 7
unfolding parse_id parse_uint
leading_zeros = refl

parse_id-bounded_example : (◌≢◌ {A = ℕ} 7 0) × (7 < 2 ^ 64)
parse_id-bounded_example = parse_id-bounded "007" leading_zeros

abbrev far : PageQuery
far = record { page = pos 0; page_size = pos 500; search = ""; status = "" }

bind_page-normal_example :
    (pos 1 ≤ℤ (bind_page far).page)
    × (pos 1 ≤ℤ (bind_page far).page_size)
    × ((bind_page far).page_size ≤ℤ pos 100)
    × (normal_number (bind_page far).page ≡ (bind_page far).page)
    × (normal_size (bind_page far).page_size ≡ (bind_page far).page_size)
bind_page-normal_example = bind_page-normal far
