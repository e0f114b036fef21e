-- ===== src/Service/Confirmation/Reads.antt =====
-- The checks of the confirmation service write nothing: they keep every predicate on the database.
use gb_516_hydropower_gate_d.Prelude.{ℕ, String, ◌==◌, string_eq, none}
use gb_516_hydropower_gate_d.Model.{ExecutionConfirmation}
use gb_516_hydropower_gate_d.Dto.{TransitionRequest}
use gb_516_hydropower_gate_d.Repository.{Platform, Db, Context}
use gb_516_hydropower_gate_d.Repository.Calls.Keeps.{
  Keeps, Keeps-pure, Keeps-ask, Keeps-if, Keeps-bind, Keeps-check,
}
use gb_516_hydropower_gate_d.Service.Confirmation.Defs.{
  require_executing_directive, find_outcome, admit,
}

module _ (p : Platform) (P : Db → Type 0) where
  pub Keeps-require : (code : String) → Keeps P (require_executing_directive p code)
  unfolding require_executing_directive
  Keeps-require code = Keeps-bind P _ _ (Keeps-ask P _) λ d. Keeps-check P _ _ _ λ _. Keeps-pure P d

  Keeps-find_outcome :
      (c : ExecutionConfirmation) (target : String) → Keeps P (find_outcome p c target)
  unfolding find_outcome
  Keeps-find_outcome c target =
      Keeps-if P (c.status == "pending") _ _
        (Keeps-bind P _ _ (Keeps-require c.related_code)
          λ d. Keeps-bind P _ _ (Keeps-ask P _) λ gate. Keeps-check P _ _ _ λ _. Keeps-pure P _)
        (Keeps-pure P none)

  pub Keeps-admit :
      (ctx : Context) (id : ℕ) (input : TransitionRequest) → Keeps P (admit p ctx id input)
  unfolding admit
  Keeps-admit ctx id input =
      Keeps-bind P _ _ (Keeps-ask P _)
        λ c. Keeps-check P _ _ _ λ _. Keeps-bind P _ _ (Keeps-find_outcome c _) λ o. Keeps-pure P _
