-- ===== src/Text.antt =====
-- The functions of Go's packages strings, unicode and fmt that the backend calls, over texts that are
-- valid UTF-8.
pub mod Trim
pub mod Split
pub mod Numbers
use Prim.Native.Char.{Char, code}
use gb_516_hydropower_gate_d.Prelude.{
  ℕ, zero, suc, ◌-◌, ◌/◌, ◌%◌, Option, some, none, String, Bool, true, false, ◌&&◌, ◌||◌, ltb, leb,
  ◌==◌, nat_eq, string_eq, if◌then◌else◌,
}

-- The tables of package unicode above ASCII: simple upper and lower case, and case folding.
pub record Unicode : Type 0 where
  pub upper_rune : Char → Char
  pub lower_rune : Char → Char
  pub folds : Char → Char → Bool

-- unicode.IsSpace
unfoldable pub is_space : Char → Bool
is_space c =
    let n = code c in
    (leb 9 n && leb n 13)
    || n == 0x20
    || n == 0x85
    || n == 0xa0
    || n == 0x1680
    || (leb 0x2000 n && leb n 0x200a)
    || n == 0x2028
    || n == 0x2029
    || n == 0x202f
    || n == 0x205f
    || n == 0x3000

trim_left : String → String
trim_left String.[] = ""
trim_left (String.◌∷◌ c s) = if is_space c then trim_left s else String.◌∷◌ c s

trim_right : String → String
trim_right String.[] = ""
trim_right (String.◌∷◌ c s) =
    let rest = trim_right s in if is_space c && rest == "" then "" else String.◌∷◌ c rest

-- strings.TrimSpace
unfoldable pub trim_space : String → String
unfolding is_space trim_left trim_right
trim_space s = trim_right (trim_left s)

-- The character of the second text at the place where `c` stands in the first.
translate : String → String → Char → Char
translate (String.◌∷◌ a s) (String.◌∷◌ b t) c = if code a == code c then b else translate s t c
translate _ _ c = c

abbrev small : String
small = "abcdefghijklmnopqrstuvwxyz"

abbrev capital : String
capital = "ABCDEFGHIJKLMNOPQRSTUVWXYZ"

ascii_lower : Char → Char
unfolding translate
ascii_lower = translate capital small

map_text : (Char → Char) → String → String
map_text f String.[] = ""
map_text f (String.◌∷◌ c s) = String.◌∷◌ (f c) (map_text f s)

module _ (u : Unicode) where
  upper : Char → Char
  unfolding translate
  upper c = if ltb (code c) 128 then translate small capital c else u.upper_rune c

  lower : Char → Char
  unfolding ascii_lower
  lower c = if ltb (code c) 128 then ascii_lower c else u.lower_rune c

  -- strings.ToUpper
  unfoldable pub to_upper : String → String
  unfolding map_text upper
  to_upper s = map_text upper s

  -- strings.ToLower
  unfoldable pub to_lower : String → String
  unfolding map_text lower
  to_lower s = map_text lower s

  same_letter : Char → Char → Bool
  unfolding ascii_lower
  same_letter a b =
      if ltb (code a) 128 && ltb (code b) 128
      then code (ascii_lower a) == code (ascii_lower b)
      else (code a == code b || u.folds a b)

  -- strings.EqualFold
  unfoldable pub equal_fold : String → String → Bool
  unfolding same_letter
  equal_fold String.[] String.[] = true
  equal_fold (String.◌∷◌ a s) (String.◌∷◌ b t) = same_letter a b && equal_fold s t
  equal_fold _ _ = false

-- Tables that change nothing above ASCII.
abbrev pub ascii_only : Unicode
ascii_only = record { upper_rune = λ c. c; lower_rune = λ c. c; folds = λ a b. false }

-- strings.HasPrefix and strings.TrimPrefix: what follows the prefix, or none.
unfoldable pub cut_prefix : String → String → Option String
cut_prefix s String.[] = some s
cut_prefix (String.◌∷◌ c s) (String.◌∷◌ a t) = if code c == code a then cut_prefix s t else none
cut_prefix _ _ = none

-- The digit of a number below 10, in front of a text.
digit_before : ℕ → String → String → String
digit_before n String.[] text = text
digit_before n (String.◌∷◌ d digits) text =
    if n == 0 then String.◌∷◌ d text else digit_before (n - 1) digits text

digits_before : ℕ → ℕ → String → String
unfolding digit_before
digits_before zero n text = text
digits_before (suc fuel) n text =
    let shown = digit_before (n % 10) "0123456789" text in
    let rest = digits_before fuel (n / 10) shown in if ltb n 10 then shown else rest

-- fmt.Sprint of a uint, which is below 2 ^ 64 and so has at most 20 digits.
unfoldable pub decimal : ℕ → String
unfolding digits_before
decimal n = digits_before 20 n ""
