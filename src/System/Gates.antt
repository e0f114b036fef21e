-- ===== src/System/Gates.antt =====
-- The gate service keeps what is `Preserved`.
use gb_516_hydropower_gate_d.Prelude.{ℕ, string_eq, nat_eq}
use gb_516_hydropower_gate_d.Model.{OperationDirective}
use gb_516_hydropower_gate_d.Dto.{TransitionRequest, CreateGateUnit, UpdateGateUnit}
use gb_516_hydropower_gate_d.Repository.{Platform, Db, Context, gates}
use gb_516_hydropower_gate_d.Repository.Calls.Keeps.{
  Keeps, Keeps-pure, Keeps-ask, Keeps-bind, Keeps-check, Keeps-within,
}
use gb_516_hydropower_gate_d.Repository.Store
use gb_516_hydropower_gate_d.Repository.Store.{has_id}
use gb_516_hydropower_gate_d.Service.Common.{Caller}
use gb_516_hydropower_gate_d.Service.Gate.{create, update, transition, delete}
use gb_516_hydropower_gate_d.System.Preserved.{Preserved}
use gb_516_hydropower_gate_d.System.Audit.{Keeps-audit, Keeps-transition_with_audit}

module _ {p : Platform} {P : Db → Type 0} {Q : OperationDirective → Type 0} {N : Caller → Type 0}
    (k : Preserved p P Q N) (ctx : Context) where
  pub Keeps-create : (input : CreateGateUnit) (who : Caller) → Keeps P (create p ctx input who)
  unfolding create
  Keeps-create input who = Keeps-bind P _ _ (Keeps-ask P _) λ _.
      Keeps-bind P _ _ (Keeps-ask P _) λ reservoir. Keeps-check P _ _ _ λ _.
        Keeps-within P p ctx _ λ tx.
          Keeps-bind P _ _
            (Store.Keeps.Keeps-create P p gates tx _ (λ db n fresh apart h. k.gates db _ h))
            λ item. Keeps-bind P _ _ (Keeps-audit k tx who _ _ _ _ _ _) λ _. Keeps-pure P item

  pub Keeps-update :
      (id : ℕ) (input : UpdateGateUnit) (who : Caller) → Keeps P (update p ctx id input who)
  unfolding update
  Keeps-update id input who = Keeps-bind P _ _ (Keeps-ask P _) λ current.
      Keeps-bind P _ _ (Keeps-ask P _) λ _. Keeps-check P _ _ _ λ _.
        Keeps-bind P _ _ (Keeps-ask P _) λ reservoir. Keeps-check P _ _ _ λ _.
          Keeps-bind P _ _
            (Keeps-within P p ctx _ λ tx.
              Keeps-bind P _ _ (Store.Keeps.Keeps-update P p gates id _ _ (λ db h. k.gates db _ h))
                λ _. Keeps-audit k tx who _ _ _ _ _ _)
            λ _. Keeps-ask P _

  pub Keeps-transition :
      (id : ℕ) (input : TransitionRequest) (who : Caller) → Keeps P (transition p ctx id input who)
  unfolding transition
  Keeps-transition id input who = Keeps-bind P _ _ (Keeps-ask P _) λ current.
      Keeps-check P _ _ _ λ _.
        Keeps-bind P _ _
          (Keeps-transition_with_audit k gates ctx id _ _ _
            (Store.Keeps.Keeps-update P p gates id _ _ (λ db h. k.gates db _ h)))
          λ _. Keeps-ask P _

  pub Keeps-delete : (id : ℕ) (who : Caller) → Keeps P (delete p ctx id who)
  unfolding delete
  Keeps-delete id who = Keeps-bind P _ _ (Keeps-ask P _) λ current. Keeps-within P p ctx _ λ tx.
      Keeps-bind P _ _ (Store.Keeps.Keeps-delete P p gates tx id (λ db h. k.gates db _ h))
        λ _. Keeps-audit k tx who _ _ _ _ _ _
