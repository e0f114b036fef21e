-- ===== src/Text/Trim.antt =====
-- strings.TrimSpace: what it leaves has no space at its ends, and is left as it is.
use gb_516_hydropower_gate_d.Prelude.{
  ◌≡◌, refl, ◌≢◌, not, inl, inr, String, Bool, true, false, ◌==◌, nat_eq, string_eq, arith,
  Bool-cases, if◌then◌else◌, ◌&&◌,
}
use Prim.Native.Char.{Char, code}
use gb_516_hydropower_gate_d.Text.Split.{holds}
use gb_516_hydropower_gate_d.Text.{is_space, trim_left, trim_right, trim_space}

right-right : (s : String) → trim_right (trim_right s) ≡ trim_right s
unfolding trim_right
right-right String.[] = refl
right-right (String.◌∷◌ c s) = elim (Bool-cases (is_space c && trim_right s == "")) [
  | inl gone ↦ rw gone refl
  | inr kept ↦ ground (arith, kept, right-right s)
]

-- A text that is empty or begins with something else than a space.
starts : String → Bool
starts String.[] = true
starts (String.◌∷◌ c s) = if is_space c then false else true

starts-left : (s : String) → starts (trim_left s) ≡ true
unfolding starts trim_left
starts-left String.[] = refl
starts-left (String.◌∷◌ c s) = ground (arith, starts-left s)

left-right : (s : String) → starts s ≡ true → trim_left (trim_right s) ≡ trim_right s
unfolding starts trim_left trim_right
left-right String.[] h = refl
left-right (String.◌∷◌ c s) h = ground (arith, h)

pub trim_space_idem : (s : String) → trim_space (trim_space s) ≡ trim_space s
unfolding trim_space
trim_space_idem s = rw (left-right (trim_left s) (starts-left s)) (right-right (trim_left s))

cons_ne : (c : Char) (s : String) → String.◌∷◌ c s ≢ ""
cons_ne c s = cc

not_space : (c d : Char) → is_space c ≡ true → is_space d ≡ false → (code c == code d) ≡ false
unfolding is_space
not_space c d h k = ground (arith, h, k)

left_blank : (d : Char) (s : String) → is_space d ≡ false → trim_left s ≡ "" → holds d s ≡ false
unfolding trim_left holds
left_blank d String.[] visible h = refl
left_blank d (String.◌∷◌ c s) visible h = elim (Bool-cases (is_space c)) [
  | inl space ↦ ground (arith, h, space, visible, left_blank d s, not_space c d)
  | inr solid ↦ absurd (cons_ne c s (ground (arith, h, solid)))
]

right_blank : (s : String) → trim_right (trim_left s) ≡ "" → trim_left s ≡ ""
unfolding trim_left trim_right
right_blank String.[] h = refl
right_blank (String.◌∷◌ c s) h = elim (Bool-cases (is_space c)) [
  | inl space ↦ ground (arith, space, h, right_blank s)
  | inr solid ↦ absurd (cons_ne c (trim_right s) (ground (arith, h, solid)))
]

-- A text of spaces only holds nothing else.
pub holds_of_blank :
    (d : Char) (s : String) → is_space d ≡ false → trim_space s ≡ "" → holds d s ≡ false
unfolding trim_space
holds_of_blank d s visible h = left_blank d s visible (right_blank s h)

left-holds : (d : Char) (s : String) → holds d s ≡ false → holds d (trim_left s) ≡ false
unfolding trim_left holds
left-holds d String.[] h = refl
left-holds d (String.◌∷◌ c s) h = ground (arith, h, left-holds d s)

right-holds : (d : Char) (s : String) → holds d s ≡ false → holds d (trim_right s) ≡ false
unfolding trim_right holds
right-holds d String.[] h = refl
right-holds d (String.◌∷◌ c s) h = elim (Bool-cases (is_space c && trim_right s == "")) [
  | inl gone ↦ rw gone refl
  | inr kept ↦ rw kept (ground (arith, h, right-holds d s))
]

pub trim-holds : (d : Char) (s : String) → holds d s ≡ false → holds d (trim_space s) ≡ false
unfolding trim_space
trim-holds d s h = right-holds d (trim_left s) (left-holds d s h)

-- No character is a space.
unfoldable pub unspaced : String → Bool
unspaced String.[] = true
unspaced (String.◌∷◌ c s) = not (is_space c) && unspaced s

left_solid : (s : String) → unspaced s ≡ true → trim_left s ≡ s
unfolding unspaced trim_left
left_solid String.[] h = refl
left_solid (String.◌∷◌ c s) h = ground (arith, h)

right_solid : (s : String) → unspaced s ≡ true → trim_right s ≡ s
unfolding unspaced trim_right
right_solid String.[] h = refl
right_solid (String.◌∷◌ c s) h = ground (arith, h, right_solid s)

-- A text without spaces is left as it is.
pub trim_solid : (s : String) → unspaced s ≡ true → trim_space s ≡ s
unfolding trim_space
trim_solid s h = rw (left_solid s h) (right_solid s h)
