-- ===== src/Prelude/Lists.antt =====
-- Lists as tables are read and rewritten: search, count, rewriting in place, and prefixes.
use Prim.Native.Nat.{ℕ, suc}
use mathlib.Core.Path.{◌≡◌, refl, sym, subst}
use mathlib.Core.Bool.{Bool, true, false, ◌||◌}
use mathlib.Core.Logic.{◌≢◌, inl, inr}
use mathlib.Core.Option.{Option, none, some}
use mathlib.Core.List.{List, [], ◌∷◌, ◌++◌, append_assoc, append-nil}
use native.Mathlib.Omega.{arith}
use gb_516_hydropower_gate_d.Prelude.Tests.{if◌then◌else◌, Bool-cases}

module _ {ℓ} {A : Type ℓ} where
  -- The first element that passes.
  abbrev pub find? : (A → Bool) → List A → Option A
  find? p [] = none
  find? p (x ∷ xs) = if p x then some x else find? p xs

  abbrev pub count_if : (A → Bool) → List A → ℕ
  count_if p [] = 0
  count_if p (x ∷ xs) = if p x then suc (count_if p xs) else count_if p xs

  abbrev pub any : (A → Bool) → List A → Bool
  any p [] = false
  any p (x ∷ xs) = p x || any p xs

  -- Rewrites every element that passes, and keeps the others.
  abbrev pub rewrite : (A → Bool) → (A → A) → List A → List A
  rewrite p f [] = []
  rewrite p f (x ∷ xs) = (if p x then f x else x) ∷ rewrite p f xs

  -- The later list only adds behind the earlier one.
  abbrev pub Extends : List A → List A → Type ℓ
  Extends xs ys = (zs : List A) × (ys ≡ xs ++ zs)

  pub Extends-refl : (xs : List A) → Extends xs xs
  Extends-refl xs = ([], sym (append-nil xs))

  pub Extends-append : (xs ys zs : List A) → Extends xs ys → Extends xs (ys ++ zs)
  Extends-append xs ys zs (ws, e) = (ws ++ zs, rw e (append_assoc xs ws zs))

  pub any_of_count : (p : A → Bool) (xs : List A) → count_if p xs ≢ 0 → any p xs ≡ true
  any_of_count p [] h = absurd (h refl)
  any_of_count p (x ∷ xs) h = ground (arith, any_of_count p xs)

  pub find?_passes : (p : A → Bool) (xs : List A) {x : A} → find? p xs ≡ some x → p x ≡ true
  find?_passes p [] h = cc
  find?_passes p (y ∷ xs) h = elim (Bool-cases (p y)) [
    | inl here ↦ ground (arith, h)
    | inr later ↦ find?_passes p xs (ground arith)
  ]

  pub rewrite_none :
      (p : A → Bool) (f : A → A) (xs : List A) → any p xs ≡ false → rewrite p f xs ≡ xs
  rewrite_none p f [] h = refl
  rewrite_none p f (x ∷ xs) h = ground (arith, rewrite_none p f xs)

  -- A rewriting that the search does not notice leaves what is found in its place.
  pub find?-rewrite :
      (p q : A → Bool) (f : A → A)
      → ((x : A) → q (f x) ≡ q x)
      → (xs : List A) {x : A} → find? q xs ≡ some x
      → find? q (rewrite p f xs) ≡ some (if p x then f x else x)
  find?-rewrite p q f same [] h = cc
  find?-rewrite p q f same (y ∷ xs) {x} h =
      ground (arith, h, same y, find?-rewrite p q f same xs {x = x})

  -- What is rewritten does not pass any more.
  pub rewrite_clears :
      (p : A → Bool) (f : A → A) (xs : List A)
      → ((x : A) → p (f x) ≡ false)
      → any p (rewrite p f xs) ≡ false
  rewrite_clears p f [] out = refl
  rewrite_clears p f (x ∷ xs) out = elim (Bool-cases (p x)) [
    | inl hit ↦ ground (arith, out x, rewrite_clears p f xs out)
    | inr miss ↦ ground (arith, rewrite_clears p f xs out)
  ]

  pub count_of_any : (p : A → Bool) (xs : List A) → any p xs ≡ false → count_if p xs ≡ 0
  count_of_any p [] h = refl
  count_of_any p (x ∷ xs) h = ground (arith, count_of_any p xs)

  pub find?-none : (p : A → Bool) (xs : List A) → find? p xs ≡ none → any p xs ≡ false
  find?-none p [] h = refl
  find?-none p (x ∷ xs) h = elim (Bool-cases (p x)) [
    | inl here ↦ absurd (ground (arith, h))
    | inr later ↦ ground (arith, find?-none p xs)
  ]

  pub find?_of_any : (p : A → Bool) (xs : List A) → any p xs ≡ false → find? p xs ≡ none
  find?_of_any p [] h = refl
  find?_of_any p (x ∷ xs) h = ground (arith, find?_of_any p xs)

module _ {ℓ κ} {A : Type ℓ} (Q : A → Type κ) where
  abbrev pub All : List A → Type κ
  All [] = Unit
  All (x ∷ xs) = Q x × All xs

  pub All-append : (xs ys : List A) → All xs → All ys → All (xs ++ ys)
  All-append [] ys hx hy = hy
  All-append (x ∷ xs) ys hx hy = (hx.0, All-append xs ys hx.1 hy)

  pub All-find : (p : A → Bool) (xs : List A) {x : A} → All xs → find? p xs ≡ some x → Q x
  All-find p [] h e = absurd (ground arith)
  All-find p (y ∷ xs) h e = elim (Bool-cases (p y)) [
    | inl here ↦ subst Q (ground arith) h.0
    | inr later ↦ All-find p xs h.1 (ground arith)
  ]

  All-if : (b : Bool) (x y : A) → (b ≡ true → Q y) → Q x → Q (if b then y else x)
  All-if true x y hy hx = hy refl
  All-if false x y hy hx = hx

  pub All-rewrite :
      (p : A → Bool) (f : A → A) (xs : List A)
      → ((x : A) → p x ≡ true → Q x → Q (f x))
      → All xs
      → All (rewrite p f xs)
  All-rewrite p f [] kf h = h
  All-rewrite p f (x ∷ xs) kf h =
      (All-if (p x) x (f x) (λ e. kf x e h.0) h.0, All-rewrite p f xs kf h.1)
