-- ===== src/Witness/Texts.antt =====
-- Runs of the text functions.
use gb_516_hydropower_gate_d.Prelude.{◌≡◌, refl, true}
use gb_516_hydropower_gate_d.Text.{trim_space, to_upper, equal_fold, ascii_only}

trim_space_test : trim_space " \t a b  " ≡ "a b"
unfolding trim_space
trim_space_test = refl

to_upper_test : to_upper ascii_only "gu-001" ≡ "GU-001"
unfolding to_upper
to_upper_test = refl

equal_fold_test : equal_fold ascii_only "Operator" "oPERATOR" ≡ true
unfolding equal_fold
equal_fold_test = refl
