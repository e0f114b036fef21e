-- ===== src/Repository/Paging/Bounds.antt =====
-- The bounds of pages and offsets.
use gb_516_hydropower_gate_d.Prelude.{ℕ, ◌-◌, ◌*◌, ◌^◌, ◌<◌, ◌≡◌, arith, ℤ, pos, ◌≤ℤ◌, pos_part}
use gb_516_hydropower_gate_d.Repository.Paging.{normal_number, normal_size, offset_of, wrap}

pub normal_number-low : (page : ℤ) → pos 1 ≤ℤ normal_number page
normal_number-low page = ground arith

pub normal_size-bounded : (size : ℤ) → (pos 1 ≤ℤ normal_size size) × (normal_size size ≤ℤ pos 100)
normal_size-bounded size = (ground arith, ground arith)

fits : (n : ℕ) → n < 2 ^ 63 → wrap n ≡ pos n
fits n h = ground arith

-- As long as the number of the rows before a page fits into an int, it is the offset of the page.
pub offset_of_page :
    (page size : ℤ)
    → (pos_part page - 1) * pos_part size < 2 ^ 63
    → offset_of page size ≡ pos ((pos_part page - 1) * pos_part size)
unfolding offset_of
offset_of_page page size h = let n = (pos_part page - 1) * pos_part size in fits n h
