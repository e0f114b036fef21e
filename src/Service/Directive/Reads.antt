-- ===== src/Service/Directive/Reads.antt =====
-- The checks of `Transition` write nothing: they keep every predicate on the database.
use gb_516_hydropower_gate_d.Prelude.{ℕ, String, none}
use gb_516_hydropower_gate_d.Model.{OperationDirective}
use gb_516_hydropower_gate_d.Dto.{TransitionRequest}
use gb_516_hydropower_gate_d.Repository.{Platform, Db, Context}
use gb_516_hydropower_gate_d.Repository.Calls.Keeps.{
  Keeps, Keeps-pure, Keeps-ask, Keeps-if, Keeps-bind, Keeps-check,
}
use gb_516_hydropower_gate_d.Service.Common.{Caller}
use gb_516_hydropower_gate_d.Service.Directive.Defs.{link_gate, needs_gate, admit}

module _ (p : Platform) (P : Db → Type 0) where
  pub Keeps-link_gate :
      (current : OperationDirective) (target : String) → Keeps P (link_gate p current target)
  unfolding link_gate
  Keeps-link_gate current target =
      Keeps-if P (needs_gate current target) _ _
        (Keeps-bind P _ _ (Keeps-ask P _)
          λ gate. Keeps-check P _ _ _ λ _. Keeps-check P _ _ _ λ _. Keeps-pure P _)
        (Keeps-pure P none)

  pub Keeps-admit :
      (ctx : Context) (id : ℕ) (input : TransitionRequest) (who : Caller)
      → Keeps P (admit p ctx id input who)
  unfolding admit
  Keeps-admit ctx id input who = Keeps-bind P _ _ (Keeps-ask P _) λ current.
      Keeps-check P _ _ _ λ _. Keeps-check P _ _ _ λ _. Keeps-check P _ _ _ λ _.
        Keeps-bind P _ _ (Keeps-link_gate current _) λ link. Keeps-check P _ _ _ λ _. Keeps-pure P _
