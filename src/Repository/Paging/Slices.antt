-- ===== src/Repository/Paging/Slices.antt =====
-- What gorm finds from an offset on and up to a limit.
use gb_516_hydropower_gate_d.Prelude.{
  ℕ, zero, suc, take, ◌-◌, ◌≤◌, ◌≡◌, refl, sym, ap, ◌∙◌, subst, arith, Bool, true, not, ◌&&◌, List,
  All, All-take, All-drop, All-of_count, ℤ, pos, negsuc, ◌≤ℤ◌, pos_part, min, length, length-take,
  length-drop, count_if, count_all, Ordered, take-Ordered, drop-Ordered, drop, [], ◌∷◌,
}
use gb_516_hydropower_gate_d.Failure.{ok}
use gb_516_hydropower_gate_d.Orm.{
  Schema, Order, precedes, scoped, skip, limit_to, Answer, answered, failed, from_answer,
}
use gb_516_hydropower_gate_d.Repository.Database.{Platform}

module _ {T : Type 0} where
  length-skip : (offset : ℤ) (xs : List T) → length (skip offset xs) ≡ length xs - pos_part offset
  length-skip (pos n) xs = length-drop n xs
  length-skip (negsuc n) xs = ground arith

  length-limit_to :
      (limit : ℤ) (xs : List T)
      → pos 1 ≤ℤ limit
      → length (limit_to limit xs) ≡ min (pos_part limit) (length xs)
  length-limit_to (pos n) xs h = length-take n xs
  length-limit_to (negsuc n) xs h = absurd (ground (arith, h))

  All-slice :
      (Q : T → Type 0) (limit offset : ℤ) (xs : List T)
      → All Q xs
      → All Q (limit_to limit (skip offset xs))
  All-slice Q (pos n) (pos m) xs h = All-take Q n (drop m xs) (All-drop Q m xs h)
  All-slice Q (pos n) (negsuc m) xs h = All-take Q n xs h
  All-slice Q (negsuc n) (pos m) xs h = All-drop Q m xs h
  All-slice Q (negsuc n) (negsuc m) xs h = h

  slice-Ordered :
      (before : T → T → Bool) (limit offset : ℤ) (xs : List T)
      → Ordered before xs
      → Ordered before (limit_to limit (skip offset xs))
  slice-Ordered before (pos n) (pos m) xs h =
      take-Ordered before n (drop m xs) (drop-Ordered before m xs h)
  slice-Ordered before (pos n) (negsuc m) xs h = take-Ordered before n xs h
  slice-Ordered before (negsuc n) (pos m) xs h = drop-Ordered before m xs h
  slice-Ordered before (negsuc n) (negsuc m) xs h = h

  and_not : (p : T → Bool) (xs : List T) → count_if (λ x. p x && not (p x)) xs ≡ 0
  and_not p [] = refl
  and_not p (x ∷ xs) = ground (arith, and_not p xs)

  and_true : (p : T → Bool) (xs : List T) → count_if (λ x. p x && true) xs ≡ count_if p xs
  and_true p [] = refl
  and_true p (x ∷ xs) = ground (arith, and_true p xs)

  count_if-drop : (q : T → Bool) (n : ℕ) (xs : List T) → count_if q (drop n xs) ≤ count_if q xs
  count_if-drop q zero xs = omega arith
  count_if-drop q (suc n) [] = omega arith
  count_if-drop q (suc n) (x ∷ xs) = ground (arith, count_if-drop q n xs)

  count_if-take : (q : T → Bool) (n : ℕ) (xs : List T) → count_if q (take n xs) ≤ count_if q xs
  count_if-take q zero xs = omega arith
  count_if-take q (suc n) [] = omega arith
  count_if-take q (suc n) (x ∷ xs) = ground (arith, count_if-take q n xs)

  count_if-limit_to :
      (q : T → Bool) (limit : ℤ) (xs : List T) → count_if q (limit_to limit xs) ≤ count_if q xs
  count_if-limit_to q (pos n) xs = count_if-take q n xs
  count_if-limit_to q (negsuc n) xs = omega arith

  count_if-skip :
      (q : T → Bool) (offset : ℤ) (xs : List T) → count_if q (skip offset xs) ≤ count_if q xs
  count_if-skip q (pos n) xs = count_if-drop q n xs
  count_if-skip q (negsuc n) xs = omega arith

  count_if-and : (p q : T → Bool) (xs : List T) → count_if (λ x. p x && q x) xs ≤ count_if q xs
  count_if-and p q [] = omega arith
  count_if-and p q (x ∷ xs) = ground (arith, count_if-and p q xs)

-- The rows of a table that pass a test, latest first, from an offset on and up to a limit.
pub record IsSlice {T : Type 0} (s : Schema T) (p : T → Bool) (o : Order T) (offset limit : ℤ)
    (rows found : List T) : Type 0 where
  pub listed : All (λ row. scoped s p row ≡ true) found
  pub latest_first : Ordered (precedes o) found
  pub from_table : (q : T → Bool) → count_if q found ≤ count_if q rows
  pub count : length found ≡ min (pos_part limit) (count_if (scoped s p) rows - pos_part offset)

slice_bound : {a b c d e : ℕ} → a ≤ b → b ≤ c → c ≡ d → d ≤ e → a ≤ e
slice_bound h i j k = omega arith

pub from_answer-eq-ok : {A : Type 0} (x : Answer A) {a : A} → from_answer x ≡ ok a → x ≡ answered a
from_answer-eq-ok (answered y) h = ground arith
from_answer-eq-ok (failed n) h = cc

module _ (p : Platform) {T : Type 0} (s : Schema T) where
  pub find_page-IsSlice :
      (q : T → Bool) (o : Order T) (offset limit : ℤ) (rows : List T) {found : List T}
      → pos 1 ≤ℤ limit
      → from_answer (p.gorm.find_page T s q o offset limit rows) ≡ ok found
      → IsSlice s q o offset limit rows found
  find_page-IsSlice q o offset limit rows {found} positive h =
      let (sorted, ordered, same, slice) =
        p.gorm.find_page_sound T s q o offset limit rows found (from_answer-eq-ok _ h) in
      let all : All (λ row. scoped s q row ≡ true) sorted =
        All-of_count (scoped s q) sorted
          (same (λ row. not (scoped s q row)) ∙ and_not (scoped s q) rows) in
      let size : length sorted ≡ count_if (scoped s q) rows =
        sym (count_all sorted) ∙ same (λ row. true) ∙ and_true (scoped s q) rows in
      record {
        listed =
            subst (All (λ row. scoped s q row ≡ true)) (sym slice)
              (All-slice _ limit offset sorted all);
        latest_first =
            subst (Ordered (precedes o)) (sym slice)
              (slice-Ordered (precedes o) limit offset sorted ordered);
        from_table = λ t.
            subst (λ xs. count_if t xs ≤ count_if t rows) (sym slice)
              (slice_bound (count_if-limit_to t limit (skip offset sorted))
                (count_if-skip t offset sorted) (same t) (count_if-and (scoped s q) t rows));
        count =
            ap length slice
            ∙ length-limit_to limit (skip offset sorted) positive
            ∙ ap (λ n. min (pos_part limit) n)
                (length-skip offset sorted ∙ ap (λ n. n - pos_part offset) size);
      }
