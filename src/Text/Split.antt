-- ===== src/Text/Split.antt =====
-- strings.Split at one character, and its inverse.
use Prim.Native.Char.{Char, code}
use gb_516_hydropower_gate_d.Prelude.{
  ◌≡◌, refl, String, Bool, false, List, All, Bool-cases, inl, inr, [], ◌∷◌, ◌==◌, nat_eq, arith,
  if◌then◌else◌, ◌||◌,
}

-- A character in front of the first part.
extend : Char → List String → List String
extend c [] = []
extend c (part ∷ parts) = String.◌∷◌ c part ∷ parts

-- strings.Split(text, string(separator))
unfoldable pub split : Char → String → List String
unfolding extend
split d String.[] = "" ∷ []
split d (String.◌∷◌ c s) =
    let rest = split d s in if code c == code d then "" ∷ rest else extend c rest

-- One text behind the other.
unfoldable pub prepend : String → String → String
prepend String.[] t = t
prepend (String.◌∷◌ c s) t = String.◌∷◌ c (prepend s t)

-- The parts with a separator between each two: what Split undoes.
unfoldable pub join : Char → List String → String
unfolding prepend
join d [] = ""
join d (part ∷ []) = part
join d (part ∷ next ∷ parts) = prepend part (String.◌∷◌ d (join d (next ∷ parts)))

unfoldable pub holds : Char → String → Bool
holds d String.[] = false
holds d (String.◌∷◌ c s) = code c == code d || holds d s

-- A part without the separator ends where the separator stands.
pub split-prepend :
    (d : Char) (part rest : String)
    → holds d part ≡ false
    → split d (prepend part (String.◌∷◌ d rest)) ≡ part ∷ split d rest
unfolding split prepend holds
split-prepend d String.[] rest h = ground arith
split-prepend d (String.◌∷◌ c s) rest h = unfold extend in ground (arith, split-prepend d s rest)

pub split_alone : (d : Char) (part : String) → holds d part ≡ false → split d part ≡ part ∷ []
unfolding split holds
split_alone d String.[] h = refl
split_alone d (String.◌∷◌ c s) h = unfold extend in ground (arith, split_alone d s)

abbrev pub Lacks : Char → String → Type 0
Lacks d part = holds d part ≡ false

extend-Lacks :
    (d c : Char) (parts : List String)
    → (code c == code d) ≡ false
    → All (Lacks d) parts
    → All (Lacks d) (extend c parts)
unfolding extend holds
extend-Lacks d c [] h k = tt
extend-Lacks d c (part ∷ parts) h (first, others) = (ground (arith, h, first), others)

-- No part holds the separator.
pub split-Lacks : (d : Char) (s : String) → All (Lacks d) (split d s)
unfolding split holds
split-Lacks d String.[] = (refl, tt)
split-Lacks d (String.◌∷◌ c s) = elim (Bool-cases (code c == code d)) [
  | inl here ↦ rw here (refl, split-Lacks d s)
  | inr other ↦ rw other (extend-Lacks d c (split d s) other (split-Lacks d s))
]
