-- ===== src/Text/Numbers.antt =====
-- strconv.ParseUint and strconv.Atoi in base 10 and 64 bits: the number, or none where they return an
-- error.
use Prim.Native.Char.{code}
use gb_516_hydropower_gate_d.Prelude.{
  ℕ, suc, ◌+◌, ◌-◌, ◌*◌, ◌^◌, ◌<◌, ◌/◌, ◌%◌, ◌≡◌, ◌≢◌, refl, ◌∙◌, zero, String, Bool, true, false,
  Option, none, some, arith, if◌then◌else◌, ltb, leb, ◌==◌, nat_eq, ◌||◌, ℤ, pos, sub_ℕ,
}
use gb_516_hydropower_gate_d.Text.{decimal, digit_before, digits_before}

scan : String → ℕ → Option ℕ
scan String.[] n = some n
scan (String.◌∷◌ c s) n =
    let d = code c - 48 in
    let next = n * 10 + d in
    let rest = scan s next in
    if ltb (code c) 48 || ltb 57 (code c) then none else if ltb next (2 ^ 64) then rest else none

-- strconv.ParseUint(text, 10, 64)
unfoldable pub parse_uint : String → Option ℕ
unfolding scan
parse_uint String.[] = none
parse_uint (String.◌∷◌ c s) = scan (String.◌∷◌ c s) 0

-- The magnitude of a number with a sign, below 2 ^ 63, and up to it for a negative one.
signed : Bool → Option ℕ → Option ℤ
signed negative none = none
signed true (some n) = if leb n (2 ^ 63) then some (sub_ℕ 0 n) else none
signed false (some n) = if ltb n (2 ^ 63) then some (pos n) else none

-- strconv.Atoi, where an int has 64 bits
unfoldable pub atoi : String → Option ℤ
unfolding parse_uint signed
atoi String.[] = none
atoi (String.◌∷◌ c s) =
    if code c == 45
    then signed true (parse_uint s)
    else if code c == 43
    then signed false (parse_uint s)
    else signed false (parse_uint (String.◌∷◌ c s))

scan-digit :
    (n acc : ℕ) (text : String)
    → n < 10
    → acc * 10 + n < 2 ^ 64
    → scan (digit_before n "0123456789" text) acc ≡ scan text (acc * 10 + n)
unfolding scan digit_before
scan-digit n acc text h fits = ground arith

-- A number below it has that many digits at most.
abbrev capacity : ℕ → ℕ
capacity zero = 1
capacity (suc n) = 10 * capacity n

digits_step :
    (fuel n : ℕ) (text : String)
    → digits_before (suc fuel) n text ≡ (
        if ltb n 10
        then digit_before (n % 10) "0123456789" text
        else digits_before fuel (n / 10) (digit_before (n % 10) "0123456789" text))
unfolding digits_before
digits_step fuel n text = refl

-- The digits of a number, in front of a text, are read as that number.
scan-digits :
    (fuel n : ℕ) (text : String)
    → n < capacity (suc fuel)
    → n < 2 ^ 64
    → scan (digits_before (suc fuel) n text) 0 ≡ scan text n
scan-digits zero n text h fits = rw digits_step (ground (arith, scan-digit (n % 10) 0 text))
scan-digits (suc fuel) n text h fits = rw digits_step (
    ground (
      arith,
      scan-digit (n % 10) 0 text,
      scan-digit (n % 10) (n / 10) text,
      scan-digits fuel (n / 10) (digit_before (n % 10) "0123456789" text),
    ))

parse_of_scan : (s : String) (n : ℕ) → n ≢ 0 → scan s 0 ≡ some n → parse_uint s ≡ some n
unfolding parse_uint
parse_of_scan String.[] n h e = absurd (ground (arith, h, e))
parse_of_scan (String.◌∷◌ c s) n h e = e

decimal-eq : (n : ℕ) → decimal n ≡ digits_before 20 n ""
unfolding decimal
decimal-eq n = refl

-- Every number of 64 bits is read back from its decimal print.
pub parse_uint-decimal : (n : ℕ) → n < 2 ^ 64 → parse_uint (decimal n) ≡ some n
parse_uint-decimal zero fits = unfold parse_uint decimal in refl
parse_uint-decimal (suc n) fits = parse_of_scan (decimal (suc n)) (suc n) (ground arith) (
    rw (decimal-eq (suc n))
      (scan-digits 19 (suc n) "" (omega (arith, fits)) fits ∙ unfold scan in refl))

scan-bounded : (s : String) (n : ℕ) {m : ℕ} → n < 2 ^ 64 → scan s n ≡ some m → m < 2 ^ 64
unfolding scan
scan-bounded String.[] n fits h = ground (arith, fits, h)
scan-bounded (String.◌∷◌ c s) n {m} fits h =
    ground (arith, fits, h, scan-bounded s (n * 10 + (code c - 48)) {m = m})

pub parse_uint-bounded : (s : String) {n : ℕ} → parse_uint s ≡ some n → n < 2 ^ 64
unfolding parse_uint
parse_uint-bounded String.[] h = cc
parse_uint-bounded (String.◌∷◌ c s) h = scan-bounded (String.◌∷◌ c s) 0 (omega arith) h
