-- ===== src/Middleware/RequestId.antt =====
-- backend/internal/middleware/request.go: the id of a request, and the headers of its response.
pub mod Safe
use Prim.Native.Char.{Char, code}
use Prim.Native.String.{len}
use gb_516_hydropower_gate_d.Prelude.{
  ℕ, String, Bool, true, false, ◌&&◌, ◌||◌, ◌==◌, nat_eq, string_eq, ltb, leb, List, [], ◌∷◌, ◌++◌,
  Option, none, some, if◌then◌else◌,
}
use gb_516_hydropower_gate_d.Text.{trim_space, cut_prefix}
use gb_516_hydropower_gate_d.Text.Split.{holds}

-- The test of the loop: 'a' to 'z', 'A' to 'Z', '0' to '9', and strings.ContainsRune("._:-", c).
unfoldable pub is_id_rune : Char → Bool
unfolding holds
is_id_rune c =
    (leb 97 (code c) && leb (code c) 122)
    || (leb 65 (code c) && leb (code c) 90)
    || (leb 48 (code c) && leb (code c) 57)
    || holds c "._:-"

unfoldable pub all_runes : (Char → Bool) → String → Bool
all_runes p String.[] = true
all_runes p (String.◌∷◌ c s) = p c && all_runes p s

-- normalizeRequestID, where `fresh` is the result of uuid.NewString
unfoldable pub normalize_request_id : String → String → String
unfolding all_runes
normalize_request_id fresh value =
    let text = trim_space value in
    if text == "" || ltb 64 (len text)
    then fresh
    else if all_runes is_id_rune text
    then text
    else fresh

-- A header that is set, and its value.
pub record Header : Type 0 where
  pub name : String
  pub value : String

abbrev pub is_api : Option String → Bool
is_api none = false
is_api (some rest) = true

-- applySecurityHeaders, for the path of the URL
unfoldable pub security_headers : String → List Header
security_headers path =
    record { name = "X-Content-Type-Options"; value = "nosniff" }
    ∷ record { name = "X-Frame-Options"; value = "DENY" }
    ∷ record { name = "Referrer-Policy"; value = "no-referrer" }
    ∷ record { name = "Permissions-Policy"; value = "camera=(), microphone=(), geolocation=()" }
    ∷ record { name = "Cross-Origin-Resource-Policy"; value = "same-origin" }
    ∷ (if is_api (cut_prefix path "/api/")
        then record { name = "Cache-Control"; value = "no-store" } ∷ []
        else [])

-- What RequestContext sets before it passes a request on.
pub record Prepared : Type 0 where
  pub request_id : String
  pub headers : List Header

unfoldable pub prepare : String → String → String → Prepared
unfolding normalize_request_id security_headers
prepare fresh header path =
    let id = normalize_request_id fresh header in
    record {
      request_id = id;
      headers = record { name = "X-Request-ID"; value = id } ∷ security_headers path;
    }
