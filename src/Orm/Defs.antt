-- ===== src/Orm/Defs.antt =====
-- The statements of gorm as an interface.
use gb_516_hydropower_gate_d.Prelude.{
  ℕ, Option, ◌≡◌, Bool, false, ◌&&◌, List, [], ◌∷◌, ◌++◌, some, none, find?, count_if, any, rewrite,
  ◌==◌, nat_eq, String, ◌||◌, ltb, ℤ, pos, negsuc, take, drop, Ordered,
}
use gb_516_hydropower_gate_d.Failure.{Result, ok, err, driver, record_not_found}

-- What the struct tags of a model say about its table.
pub record Schema (T : Type 0) : Type 0 where
  pub key : T → ℕ
  -- not soft-deleted
  pub is_live : T → Bool
  -- what `Create` fills in: the primary key, the time stamps that are not set, and the hooks
  pub stamp : ℕ → ℕ → T → T
  -- two rows that a unique index keeps from standing in one table
  pub clash : T → T → Bool
  pub mark_deleted : ℕ → T → T

abbrev pub has_key : {T : Type 0} → Schema T → ℕ → T → Bool
has_key s k row = s.key row == k

-- The condition that gorm adds to each query of a model with a DeletedAt field.
abbrev pub scoped : {T : Type 0} → Schema T → (T → Bool) → T → Bool
scoped s p row = s.is_live row && p row

-- A statement is answered, or fails with an error of the driver.
pub data Answer (A : Type 0) : Type 0 where
  answered : A → Answer A
  failed : ℕ → Answer A

abbrev pub from_answer : {A : Type 0} → Answer A → Result A
from_answer (answered a) = ok a
from_answer (failed n) = err (driver n)

-- The error that `First(&item).Error` is.
abbrev pub from_first : {A : Type 0} → Answer (Option A) → Result A
from_first (answered none) = err record_not_found
from_first (answered (some a)) = ok a
from_first (failed n) = err (driver n)

-- Rows inserted one behind the other: each with a key and in no conflict with those before it.
abbrev pub IsInserted : {T : Type 0} → Schema T → ℕ → List T → List T → List T → Type 0
IsInserted s now rows [] [] = Unit
IsInserted s now rows (item ∷ items) (row ∷ created) =
    ((k : ℕ) × (any (has_key s k) rows ≡ false)
      × (any (s.clash row) rows ≡ false)
      × (row ≡ s.stamp k now item))
    × IsInserted s now (rows ++ row ∷ []) items created
IsInserted s now rows _ _ = ⊥

-- `Order("<first> DESC, <second> DESC")`
pub record Order (T : Type 0) : Type 0 where
  pub first : T → ℕ
  pub second : T → ℕ

abbrev pub precedes : {T : Type 0} → Order T → T → T → Bool
precedes o x y =
    ltb (o.first y) (o.first x) || (o.first x == o.first y && ltb (o.second y) (o.second x))

-- `Offset(n)` and `Limit(n)`: gorm ignores them below 0.
abbrev pub skip : {T : Type 0} → ℤ → List T → List T
skip (pos n) rows = drop n rows
skip (negsuc n) rows = rows

abbrev pub limit_to : {T : Type 0} → ℤ → List T → List T
limit_to (pos n) rows = take n rows
limit_to (negsuc n) rows = rows

pub record Gorm : Type 1 where
  -- `Where(p).First(&item)`; none is gorm.ErrRecordNotFound
  pub first : (T : Type 0) → Schema T → (T → Bool) → List T → Answer (Option T)
  -- `Create(item)` at a time: the row as it was stored, and the table
  pub create : (T : Type 0) → Schema T → ℕ → T → List T → Answer (T × List T)
  -- `Create(&items)` for a slice: the rows as they were stored, and the table
  pub create_all : (T : Type 0) → Schema T → ℕ → List T → List T → Answer (List T × List T)
  -- `Where(p).Updates(...)`, given as the change of a row: the number of rows, and the table
  pub updates : (T : Type 0) → Schema T → (T → Bool) → (T → T) → List T → Answer (ℕ × List T)
  -- `Delete(new(T), id)` at a time
  pub delete : (T : Type 0) → Schema T → ℕ → ℕ → List T → Answer (ℕ × List T)
  -- `Where(p).Count(&n)`
  pub count : (T : Type 0) → Schema T → (T → Bool) → List T → Answer ℕ
  -- `Where(p).Order("created_at ASC, id ASC").Find(&items)`
  pub find_all : (T : Type 0) → Schema T → (T → Bool) → List T → Answer (List T)
  -- `Where(p).Order(o).Offset(n).Limit(m).Find(&items)`
  pub find_page : (T : Type 0) → Schema T → (T → Bool) → Order T → ℤ → ℤ → List T → Answer (List T)
  -- `LOWER(x)` and `x LIKE pattern` in SQL
  pub sql_lower : String → String
  pub like : String → String → Bool
  -- BEGIN, and COMMIT of what a transaction has written
  pub begin : (S : Type 0) → S → Answer (Unit {0})
  pub commit : (S : Type 0) → S → Answer (Unit {0})
  pub first_found :
      (T : Type 0) (s : Schema T) (p : T → Bool) (rows : List T) (o : Option T)
      → first T s p rows ≡ answered o
      → o ≡ find? (scoped s p) rows
  pub create_appends :
      (T : Type 0) (s : Schema T) (now : ℕ) (item row : T) (rows rows' : List T)
      → create T s now item rows ≡ answered (row, rows')
      → (k : ℕ) × (any (has_key s k) rows ≡ false)
        × (any (s.clash row) rows ≡ false)
        × (row ≡ s.stamp k now item)
        × (rows' ≡ rows ++ row ∷ [])
  pub create_all_appends :
      (T : Type 0) (s : Schema T) (now : ℕ) (items rows created rows' : List T)
      → create_all T s now items rows ≡ answered (created, rows')
      → IsInserted s now rows items created × (rows' ≡ rows ++ created)
  pub updates_rewrites :
      (T : Type 0) (s : Schema T) (p : T → Bool) (f : T → T) (rows rows' : List T) (n : ℕ)
      → updates T s p f rows ≡ answered (n, rows')
      → (n ≡ count_if (scoped s p) rows) × (rows' ≡ rewrite (scoped s p) f rows)
  pub delete_marks :
      (T : Type 0) (s : Schema T) (now id : ℕ) (rows rows' : List T) (n : ℕ)
      → delete T s now id rows ≡ answered (n, rows')
      → (n ≡ count_if (scoped s (has_key s id)) rows)
        × (rows' ≡ rewrite (scoped s (has_key s id)) (s.mark_deleted now) rows)
  pub count_counts :
      (T : Type 0) (s : Schema T) (p : T → Bool) (rows : List T) (n : ℕ)
      → count T s p rows ≡ answered n
      → n ≡ count_if (scoped s p) rows
  pub find_all_sound :
      (T : Type 0) (s : Schema T) (p q : T → Bool) (rows found : List T)
      → find_all T s p rows ≡ answered found
      → count_if q found ≡ count_if (λ row. scoped s p row && q row) rows
  pub find_page_sound :
      (T : Type 0) (s : Schema T) (p : T → Bool) (o : Order T) (offset limit : ℤ)
      (rows found : List T)
      → find_page T s p o offset limit rows ≡ answered found
      → (sorted : List T) × Ordered (precedes o) sorted
        × ((q : T → Bool) → count_if q sorted ≡ count_if (λ row. scoped s p row && q row) rows)
        × (found ≡ limit_to limit (skip offset sorted))
