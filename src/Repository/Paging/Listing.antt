-- ===== src/Repository/Paging/Listing.antt =====
-- What a list that is read from a table holds, said of its rows and not of the query: which rows they
-- are, in which order, how many, and from where on.
use gb_516_hydropower_gate_d.Prelude.{
  ℕ, ◌+◌, ◌-◌, ◌*◌, ◌^◌, ◌/◌, ◌%◌, ◌≤◌, ◌<◌, ◌≡◌, ◌⊎◌, ◌↔◌, inl, inr, arith, subst, Bool, true,
  false, List, [], ◌∷◌, All, any, length, count_if, min, ltb, leb, ltb_ℤ, suc, Bool-cases, Ordered,
  ℤ, pos, pos_part, neg_part, ◌≤ℤ◌,
}
use gb_516_hydropower_gate_d.Orm.{Schema, Order, precedes, scoped}
use gb_516_hydropower_gate_d.Repository.Paging.{normal_size, wrap}
use gb_516_hydropower_gate_d.Repository.Paging.Slices.{IsSlice}

-- Each element stands in the relation to all that follow.
abbrev pub Sorted : {T : Type 0} → (T → T → Type 0) → List T → Type 0
Sorted R [] = Unit
Sorted R (x ∷ xs) = All (R x) xs × Sorted R xs

-- `test` computes whether a row is asked for, that is whether it has `Q`.
pub record IsListing {T : Type 0} (test : T → Bool) (Q : T → Type 0) (R : T → T → Type 0)
    (offset limit : ℤ) (rows found : List T) : Type 0 where
  pub listed : All Q found
  pub sorted : Sorted R found
  -- no row stands there more often than in the table
  pub from_table : (q : T → Bool) → count_if q found ≤ count_if q rows
  pub decides : (row : T) → (test row ≡ true) ↔ Q row
  pub count : length found ≡ min (pos_part limit) (count_if test rows - pos_part offset)

module _ {T : Type 0} (before : T → T → Bool) (R : T → T → Type 0)
    (reads : (x y : T) → before y x ≡ false → R x y) where
  none_before : (x : T) (xs : List T) → any (λ y. before y x) xs ≡ false → All (R x) xs
  none_before x [] h = tt
  none_before x (y ∷ ys) h = (reads x y (ground (arith, h)), none_before x ys (ground (arith, h)))

  Ordered-Sorted : (xs : List T) → Ordered before xs → Sorted R xs
  Ordered-Sorted [] h = tt
  Ordered-Sorted (x ∷ xs) (first, rest) = (none_before x xs first, Ordered-Sorted xs rest)

All_map :
    {T : Type 0} (P Q : T → Type 0)
    → ((row : T) → P row → Q row)
    → (xs : List T) → All P xs
    → All Q xs
All_map P Q f [] h = tt
All_map P Q f (x ∷ xs) (first, rest) = (f x first, All_map P Q f xs rest)

-- What was found for a test and an order of the query, read as what they mean.
pub listing :
    {T : Type 0} (s : Schema T) (p : T → Bool) (o : Order T) (offset limit : ℤ)
    (rows found : List T) (Q : T → Type 0) (R : T → T → Type 0)
    → ((row : T) → (scoped s p row ≡ true) ↔ Q row)
    → ((x y : T) → precedes o y x ≡ false → R x y)
    → IsSlice s p o offset limit rows found
    → IsListing (scoped s p) Q R offset limit rows found
listing s p o offset limit rows found Q R decides reads slice = record {
  listed = All_map (λ row. scoped s p row ≡ true) Q (λ row h. (decides row).0 h) found slice.listed;
  sorted = Ordered-Sorted (precedes o) R reads found slice.latest_first;
  from_table = slice.from_table;
  decides = decides;
  count = slice.count;
}

-- A size as it was asked for: 20 below 1, and 100 at most.
abbrev pub IsClamped : ℤ → ℤ → Type 0
IsClamped asked size =
    ((asked ≤ℤ pos 0) × (size ≡ pos 20))
    ⊎ ((pos 1 ≤ℤ asked) × (asked ≤ℤ pos 100) × (size ≡ asked))
    ⊎ ((pos 101 ≤ℤ asked) × (size ≡ pos 100))

pub normal_size-IsClamped : (asked : ℤ) → IsClamped asked (normal_size asked)
normal_size-IsClamped asked = elim (Bool-cases (ltb_ℤ asked (pos 1))) [
  | inl low ↦ inl (ground (arith, low), ground (arith, low))
  | inr positive ↦ elim (Bool-cases (ltb_ℤ (pos 100) asked)) [
    | inl high ↦ inr (inr (ground (arith, high), ground (arith, positive, high)))
    | inr fit ↦
        inr (inl (ground (arith, positive), ground (arith, fit), ground (arith, positive, fit)))
  ]
]

twenty : (size : ℤ) → IsClamped (pos 20) size → size ≡ pos 20
twenty size (inl (low, e)) = e
twenty size (inr (inl (low, high, e))) = e
twenty size (inr (inr (high, e))) = absurd (ground (arith, high))

hundred : (size : ℤ) → IsClamped (pos 100) size → size ≡ pos 100
hundred size (inl (low, e)) = absurd (ground (arith, low))
hundred size (inr (inl (low, high, e))) = e
hundred size (inr (inr (high, e))) = e

-- To clamp twice is to clamp once.
pub IsClamped-twice :
    (asked between size : ℤ)
    → IsClamped asked between
    → IsClamped between size
    → IsClamped asked size
IsClamped-twice asked between size (inl (low, e)) h =
    inl (low, twenty size (subst (λ b. IsClamped b size) e h))
IsClamped-twice asked between size (inr (inl (low, high, e))) h = subst (λ b. IsClamped b size) e h
IsClamped-twice asked between size (inr (inr (high, e))) h =
    inr (inr (high, hundred size (subst (λ b. IsClamped b size) e h)))

-- A number that stands for n in 64 bits with a sign.
abbrev pub IsWrapped : ℕ → ℤ → Type 0
IsWrapped n z =
    ((k : ℕ) × (pos_part z + k * 2 ^ 64 ≡ n + neg_part z))
    × (pos_part z < 2 ^ 63)
    × (neg_part z ≤ 2 ^ 63)

below : (m : ℕ) → ltb m (2 ^ 63) ≡ true → m < 2 ^ 63
below m h = ground (arith, h)

within : (m : ℕ) → ltb m (2 ^ 63) ≡ false → suc (2 ^ 64 - m - 1) ≤ 2 ^ 63
within m h = ground (arith, h)

over : (m : ℕ) → m < 2 ^ 64 → leb (2 ^ 64) m ≡ false
over m h = ground (arith, h)

pub wrap-IsWrapped : (n : ℕ) → IsWrapped n (wrap n)
wrap-IsWrapped n = elim (Bool-cases (ltb (n % 2 ^ 64) (2 ^ 63))) [
  | inl small ↦ rw small ((n / 2 ^ 64, omega arith), below (n % 2 ^ 64) small, omega arith)
  | inr large ↦
      rw (large, over (n % 2 ^ 64) (omega arith))
        ((n / 2 ^ 64 + 1, omega arith), omega arith, within (n % 2 ^ 64) large)
]
