-- ===== src/Prelude/Slices.antt =====
-- Lengths and slices of lists, by the native numbers.
use Prim.Native.Nat.{ℕ, zero, suc, ◌-◌}
use mathlib.Core.Path.{◌≡◌, refl, ap}
use mathlib.Core.Bool.{Bool, true, false, not}
use mathlib.Core.List.{List, [], ◌∷◌}
use mathlib.Core.Logic.{inl, inr}
use native.Mathlib.Omega.{arith}
use gb_516_hydropower_gate_d.Prelude.Tests.{if◌then◌else◌, ltb, Bool-cases}
use gb_516_hydropower_gate_d.Prelude.Lists.{count_if, any, All}

abbrev pub min : ℕ → ℕ → ℕ
min a b = if ltb a b then a else b

module _ {ℓ} {A : Type ℓ} where
  abbrev pub length : List A → ℕ
  length [] = 0
  length (x ∷ xs) = suc (length xs)

  abbrev pub take : ℕ → List A → List A
  take zero xs = []
  take (suc n) [] = []
  take (suc n) (x ∷ xs) = x ∷ take n xs

  abbrev pub drop : ℕ → List A → List A
  drop zero xs = xs
  drop (suc n) [] = []
  drop (suc n) (x ∷ xs) = drop n xs

  pub length-take : (n : ℕ) (xs : List A) → length (take n xs) ≡ min n (length xs)
  length-take zero xs = ground arith
  length-take (suc n) [] = ground arith
  length-take (suc n) (x ∷ xs) = ground (arith, length-take n xs)

  pub length-drop : (n : ℕ) (xs : List A) → length (drop n xs) ≡ length xs - n
  length-drop zero xs = ground arith
  length-drop (suc n) [] = ground arith
  length-drop (suc n) (x ∷ xs) = ground (arith, length-drop n xs)

  pub count_all : (xs : List A) → count_if (λ x. true) xs ≡ length xs
  count_all [] = refl
  count_all (x ∷ xs) = ap suc (count_all xs)

  -- Each element stands where no later one should stand before it.
  abbrev pub Ordered : (A → A → Bool) → List A → Type 0
  Ordered before [] = Unit
  Ordered before (x ∷ xs) = (any (λ y. before y x) xs ≡ false) × Ordered before xs

  any-take : (p : A → Bool) (n : ℕ) (xs : List A) → any p xs ≡ false → any p (take n xs) ≡ false
  any-take p zero xs h = refl
  any-take p (suc n) [] h = refl
  any-take p (suc n) (x ∷ xs) h = ground (arith, h, any-take p n xs)

  pub take-Ordered :
      (before : A → A → Bool) (n : ℕ) (xs : List A) → Ordered before xs → Ordered before (take n xs)
  take-Ordered before zero xs h = tt
  take-Ordered before (suc n) [] h = tt
  take-Ordered before (suc n) (x ∷ xs) (first, rest) =
      (any-take (λ y. before y x) n xs first, take-Ordered before n xs rest)

  pub drop-Ordered :
      (before : A → A → Bool) (n : ℕ) (xs : List A) → Ordered before xs → Ordered before (drop n xs)
  drop-Ordered before zero xs h = h
  drop-Ordered before (suc n) [] h = tt
  drop-Ordered before (suc n) (x ∷ xs) (first, rest) = drop-Ordered before n xs rest

module _ {ℓ κ} {A : Type ℓ} (Q : A → Type κ) where
  pub All-take : (n : ℕ) (xs : List A) → All Q xs → All Q (take n xs)
  All-take zero xs h = tt
  All-take (suc n) [] h = tt
  All-take (suc n) (x ∷ xs) (h, hs) = (h, All-take n xs hs)

  pub All-drop : (n : ℕ) (xs : List A) → All Q xs → All Q (drop n xs)
  All-drop zero xs h = h
  All-drop (suc n) [] h = tt
  All-drop (suc n) (x ∷ xs) (h, hs) = All-drop n xs hs

-- No element fails a test: every element passes it.
pub All-of_count :
    {A : Type 0} (p : A → Bool) (xs : List A)
    → count_if (λ x. not (p x)) xs ≡ 0
    → All (λ x. p x ≡ true) xs
All-of_count p [] h = tt
All-of_count p (x ∷ xs) h = elim (Bool-cases (p x)) [
  | inl passes ↦ (passes, All-of_count p xs (ground (arith, h, passes)))
  | inr fails ↦ absurd (ground (arith, h, fails))
]
