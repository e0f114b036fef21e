-- ===== src/Orm/Memory.antt =====
-- A database in memory whose statements always succeed: it meets the laws of `Gorm`.
use gb_516_hydropower_gate_d.Prelude.{
  true, ℕ, suc, ◌+◌, ◌≤◌, ◌≡◌, refl, ap, ◌∙◌, subst, Bool, false, ◌&&◌, List, [], ◌∷◌, ◌++◌, arith,
  find?, count_if, any, rewrite, if◌then◌else◌, ℤ, Ordered, inl, inr, Bool-cases, ◌==◌, string_eq,
  Option, some, none,
}
use gb_516_hydropower_gate_d.Orm.Defs.{
  Schema, has_key, scoped, Answer, answered, failed, Gorm, Order, precedes, skip, limit_to,
  IsInserted,
}
use gb_516_hydropower_gate_d.Text.{to_lower, ascii_only}

module _ {T : Type 0} (s : Schema T) where
  -- a number above every key
  unfoldable pub next_key : List T → ℕ
  next_key [] = 1
  next_key (row ∷ rows) = suc (s.key row + next_key rows)

  not-has_key-above : (k : ℕ) (rows : List T) → next_key rows ≤ k → any (has_key s k) rows ≡ false
  unfolding next_key
  not-has_key-above k [] h = refl
  not-has_key-above k (row ∷ rows) h = ground (arith, not-has_key-above k rows)

  abbrev pub insert_row : ℕ → T → List T → Answer (T × List T)
  unfolding next_key
  insert_row now item rows =
      let row = s.stamp (next_key rows) now item in
      if any (s.clash row) rows then failed 1 else answered (row, rows ++ row ∷ [])

  pub insert_row_appends :
      (now : ℕ) (item row : T) (rows rows' : List T)
      → insert_row now item rows ≡ answered (row, rows')
      → (k : ℕ) × (any (has_key s k) rows ≡ false)
        × (any (s.clash row) rows ≡ false)
        × (row ≡ s.stamp k now item)
        × (rows' ≡ rows ++ row ∷ [])
  unfolding next_key
  insert_row_appends now item row rows rows' h = (
    next_key rows,
    not-has_key-above (next_key rows) rows (omega arith),
    ground arith,
    ground arith,
    ground arith,
  )

module _ {T : Type 0} (s : Schema T) (now : ℕ) where
  abbrev prefixed : T → Option (List T) → Option (List T)
  prefixed row none = none
  prefixed row (some rows) = some (row ∷ rows)

  -- The rows of a slice, with the keys that they get in a table, if none is in conflict.
  unfoldable pub insert_rows : List T → List T → Option (List T)
  unfolding next_key
  insert_rows [] rows = some []
  insert_rows (item ∷ items) rows =
      let row = s.stamp (next_key s rows) now item in
      let rest = insert_rows items (rows ++ row ∷ []) in
      if any (s.clash row) rows then none else prefixed row rest

  abbrev pub inserted : Option (List T) → List T → Answer (List T × List T)
  inserted none rows = failed 1
  inserted (some created) rows = answered (created, rows ++ created)

  prefixed-eq-some :
      (row : T) (o : Option (List T)) {created : List T}
      → prefixed row o ≡ some created
      → (rest : List T) × (o ≡ some rest) × (row ∷ rest ≡ created)
  prefixed-eq-some row none h = cc
  prefixed-eq-some row (some rest) h = (rest, refl, ground arith)

  if-eq-some :
      (b : Bool) (o : Option (List T)) {created : List T}
      → (if b then none else o) ≡ some created
      → (b ≡ false) × (o ≡ some created)
  if-eq-some true o h = cc
  if-eq-some false o h = (refl, h)

  some_nil :
      (rows created : List T)
      → ◌≡◌ {A = Option (List T)} (some []) (some created)
      → IsInserted s now rows [] created
  some_nil rows [] h = tt
  some_nil rows (c ∷ cs) h = absurd (ground (arith, h))

  insert_rows-IsInserted :
      (items rows created : List T)
      → insert_rows items rows ≡ some created
      → IsInserted s now rows items created
  unfolding insert_rows
  insert_rows-IsInserted [] rows created h = some_nil rows created h
  insert_rows-IsInserted (item ∷ items) rows created h =
      let row = s.stamp (next_key s rows) now item in
      let (apart, h₁) =
        if-eq-some (any (s.clash row) rows) (prefixed row (insert_rows items (rows ++ row ∷ [])))
          h in
      let (rest, h₂, e) = prefixed-eq-some row (insert_rows items (rows ++ row ∷ [])) h₁ in
      subst (IsInserted s now rows (item ∷ items)) e (
        (next_key s rows, not-has_key-above s (next_key s rows) rows (omega arith), apart, refl),
        insert_rows-IsInserted items (rows ++ row ∷ []) rest h₂,
      )

  inserted-eq :
      (o : Option (List T)) (rows created rows' : List T)
      → inserted o rows ≡ answered (created, rows')
      → (o ≡ some created) × (rows' ≡ rows ++ created)
  inserted-eq none rows created rows' h = absurd (ground (arith, h))
  inserted-eq (some cs) rows created rows' h = (ground (arith, h), ground (arith, h))

  pub insert_rows_appends :
      (items rows created rows' : List T)
      → inserted (insert_rows items rows) rows ≡ answered (created, rows')
      → IsInserted s now rows items created × (rows' ≡ rows ++ created)
  insert_rows_appends items rows created rows' h =
      let (made, appended) = inserted-eq (insert_rows items rows) rows created rows' h in
      (insert_rows-IsInserted items rows created made, appended)

abbrev pub select : {T : Type 0} → (T → Bool) → List T → List T
select p [] = []
select p (x ∷ xs) = if p x then x ∷ select p xs else select p xs

pub count_if-select :
    {T : Type 0} (p q : T → Bool) (xs : List T)
    → count_if q (select p xs) ≡ count_if (λ x. p x && q x) xs
count_if-select p q [] = refl
count_if-select p q (x ∷ xs) = ground (arith, count_if-select p q xs)

pub updates_answer :
    {T : Type 0} {n m : ℕ} {xs ys : List T}
    → ◌≡◌ {A = Answer (ℕ × List T)} (answered (n, xs)) (answered (m, ys))
    → (m ≡ n) × (ys ≡ xs)
updates_answer h = ground arith

pub the_answer : {A : Type 0} {x y : A} → ◌≡◌ {A = Answer A} (answered x) (answered y) → y ≡ x
the_answer h = ground arith

pub select_sound :
    {T : Type 0} (p q : T → Bool) (rows : List T) {found : List T}
    → ◌≡◌ {A = Answer (List T)} (answered (select p rows)) (answered found)
    → count_if q found ≡ count_if (λ x. p x && q x) rows
select_sound p q rows h = ap (λ xs. count_if q xs) (the_answer h) ∙ count_if-select p q rows

module _ {T : Type 0} (o : Order T) where
  unfoldable pub insert : T → List T → List T
  insert x [] = x ∷ []
  insert x (y ∷ ys) = let rest = insert x ys in if precedes o y x then y ∷ rest else x ∷ y ∷ ys

  unfoldable pub sort : List T → List T
  unfolding insert
  sort [] = []
  sort (x ∷ xs) = insert x (sort xs)

  count_if-insert :
      (q : T → Bool) (x : T) (ys : List T) → count_if q (insert x ys) ≡ count_if q (x ∷ ys)
  unfolding insert
  count_if-insert q x [] = refl
  count_if-insert q x (y ∷ ys) = ground (arith, count_if-insert q x ys)

  count_if-sort : (q : T → Bool) (xs : List T) → count_if q (sort xs) ≡ count_if q xs
  unfolding sort
  count_if-sort q [] = refl
  count_if-sort q (x ∷ xs) = ground (arith, count_if-sort q xs, count_if-insert q x (sort xs))

  any-precedes :
      (x y : T) (ys : List T)
      → any (λ z. precedes o z y) ys ≡ false
      → precedes o y x ≡ false
      → any (λ z. precedes o z x) ys ≡ false
  any-precedes x y [] h k = refl
  any-precedes x y (z ∷ ys) h k = ground (arith, h, k, any-precedes x y ys)

  any-insert :
      (p : T → Bool) (x : T) (ys : List T)
      → p x ≡ false
      → any p ys ≡ false
      → any p (insert x ys) ≡ false
  unfolding insert
  any-insert p x [] h k = ground (arith, h)
  any-insert p x (y ∷ ys) h k = ground (arith, h, k, any-insert p x ys)

  insert-Ordered :
      (x : T) (ys : List T) → Ordered (precedes o) ys → Ordered (precedes o) (insert x ys)
  unfolding insert
  insert-Ordered x [] h = (refl, tt)
  insert-Ordered x (y ∷ ys) (first, rest) = elim (Bool-cases (precedes o y x)) [
    | inl later ↦ rw later (
      any-insert (λ z. precedes o z y) x ys (ground (arith, later)) first,
      insert-Ordered x ys rest,
    )
    | inr here ↦ rw here (ground (arith, here, any-precedes x y ys first here), (first, rest))
  ]

  sort-Ordered : (xs : List T) → Ordered (precedes o) (sort xs)
  unfolding sort
  sort-Ordered [] = tt
  sort-Ordered (x ∷ xs) = insert-Ordered x (sort xs) (sort-Ordered xs)

  pub sorted_page :
      (p : T → Bool) (offset limit : ℤ) (rows : List T) {found : List T}
      → ◌≡◌ {A = Answer (List T)}
          (answered (limit_to limit (skip offset (sort (select p rows)))))
          (answered found)
      → (sorted : List T) × Ordered (precedes o) sorted
        × ((q : T → Bool) → count_if q sorted ≡ count_if (λ row. p row && q row) rows)
        × (found ≡ limit_to limit (skip offset sorted))
  sorted_page p offset limit rows h = (
    sort (select p rows),
    sort-Ordered (select p rows),
    λ q. count_if-sort q (select p rows) ∙ count_if-select p q rows,
    the_answer h,
  )

unfoldable pub memory : Gorm
unfolding next_key sort insert_rows
memory = record {
  first = λ T s p rows. answered (find? (scoped s p) rows);
  create = λ T s now item rows. insert_row s now item rows;
  create_all = λ T s now items rows. inserted s now (insert_rows s now items rows) rows;
  updates = λ T s p f rows. answered (count_if (scoped s p) rows, rewrite (scoped s p) f rows);
  delete = λ T s now id rows. answered (
    count_if (scoped s (has_key s id)) rows,
    rewrite (scoped s (has_key s id)) (s.mark_deleted now) rows,
  );
  count = λ T s p rows. answered (count_if (scoped s p) rows);
  find_all = λ T s p rows. answered (select (scoped s p) rows);
  find_page = λ T s p o offset limit rows.
      answered (limit_to limit (skip offset (sort o (select (scoped s p) rows))));
  sql_lower = to_lower ascii_only;
  like = λ text pattern. text == pattern;
  begin = λ S s. answered tt;
  commit = λ S s. answered tt;
  first_found = λ T s p rows o h. the_answer h;
  create_appends = λ T s now item row rows rows' h. insert_row_appends s now item row rows rows' h;
  create_all_appends =
      λ T s now items rows created rows' h. insert_rows_appends s now items rows created rows' h;
  updates_rewrites = λ T s p f rows rows' n h. updates_answer h;
  delete_marks = λ T s now id rows rows' n h. updates_answer h;
  count_counts = λ T s p rows n h. the_answer h;
  find_all_sound = λ T s p q rows found h. select_sound (scoped s p) q rows h;
  find_page_sound =
      λ T s p o offset limit rows found h. sorted_page o (scoped s p) offset limit rows h;
}
