-- ===== src/Config/Lists.antt =====
-- splitCSV: its result, and the lists that it reads back.
use gb_516_hydropower_gate_d.Prelude.{
  ◌≡◌, ◌≢◌, refl, ◌∙◌, arith, eq_iff, inl, inr, String, false, List, [], ◌∷◌, All, ◌==◌, string_eq,
  Bool-cases,
}
use gb_516_hydropower_gate_d.Text.{is_space, trim_space}
use gb_516_hydropower_gate_d.Text.Trim.{trim_space_idem, holds_of_blank, trim-holds}
use gb_516_hydropower_gate_d.Text.Split.{
  split, join, Lacks, holds, split-prepend, split_alone, split-Lacks,
}
use gb_516_hydropower_gate_d.Config.Load.{keep_item, collect, split_csv}

-- An item as splitCSV returns it: trimmed, not empty, and without a comma.
pub record IsItem (item : String) : Type 0 where
  pub trimmed : trim_space item ≡ item
  pub not_empty : item ≢ ""
  pub whole : holds "," item ≡ false

-- The test for a blank text in front changes nothing: such a text has one part, which is dropped.
split_csv_lem : (value : String) → split_csv value ≡ collect (split "," value)
unfolding split_csv
split_csv_lem value = elim (Bool-cases (trim_space value == "")) [
  | inl blank ↦
      let empty : trim_space value ≡ "" = ground (arith, eq_iff (trim_space value) "", blank) in
      rw (blank, split_alone "," value (holds_of_blank "," value (unfold is_space in refl) empty))
        (unfold collect keep_item in rw empty refl)
  | inr some_text ↦ rw some_text refl
]

collect_item :
    (item : String) (parts : List String)
    → IsItem item
    → collect (item ∷ parts) ≡ item ∷ collect parts
unfolding collect keep_item
collect_item item parts h = rw h.trimmed (ground (arith, eq_iff item "", h.not_empty))

collect-split-join :
    (item : String) (items : List String)
    → All IsItem (item ∷ items)
    → collect (split "," (join "," (item ∷ items))) ≡ item ∷ items
unfolding join
collect-split-join item [] (h, _) =
    rw (split_alone "," item h.whole, collect_item item [] h) (unfold collect in refl)
collect-split-join item (next ∷ items) (h, hs) =
    rw (split-prepend "," item _ h.whole, collect_item item _ h, collect-split-join next items hs)
      refl

-- A list of such items, joined by commas, is read back as it was.
pub split_csv-join : (items : List String) → All IsItem items → split_csv (join "," items) ≡ items
split_csv-join [] h = unfold split_csv join trim_space in refl
split_csv-join (item ∷ items) h =
    split_csv_lem (join "," (item ∷ items)) ∙ collect-split-join item items h

keep_item-IsItem :
    (part : String) (items : List String)
    → holds "," part ≡ false
    → All IsItem items
    → All IsItem (keep_item (trim_space part) items)
unfolding keep_item
keep_item-IsItem part items whole hs = elim (Bool-cases (trim_space part == "")) [
  | inl blank ↦ rw blank hs
  | inr visible ↦ rw visible (
    record {
      trimmed = trim_space_idem part;
      not_empty = ground (arith, eq_iff (trim_space part) "", visible);
      whole = trim-holds "," part whole;
    },
    hs,
  )
]

collect-IsItem : (parts : List String) → All (Lacks ",") parts → All IsItem (collect parts)
unfolding collect
collect-IsItem [] h = tt
collect-IsItem (part ∷ parts) (h, hs) =
    keep_item-IsItem part (collect parts) h (collect-IsItem parts hs)

-- Every item of a list that splitCSV returns is trimmed, not empty and without a comma; and joining
-- the items by commas gives a text that splitCSV reads as the same list.
pub split_csv-IsItem :
    (value : String)
    → All IsItem (split_csv value) × (split_csv (join "," (split_csv value)) ≡ split_csv value)
split_csv-IsItem value =
    let items : All IsItem (split_csv value) =
      rw (split_csv_lem value) (collect-IsItem (split "," value) (split-Lacks "," value)) in
    (items, split_csv-join (split_csv value) items)
