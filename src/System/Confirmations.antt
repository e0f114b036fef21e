-- ===== src/System/Confirmations.antt =====
-- The confirmation service keeps what is `Preserved`.
use gb_516_hydropower_gate_d.Prelude.{
  ℕ, ◌≡◌, ◌⊎◌, String, string_eq, Option, none, some, arith, subst, sym, refl,
}
use gb_516_hydropower_gate_d.Model.{OperationDirective, ExecutionConfirmation}
use gb_516_hydropower_gate_d.Dto.{
  TransitionRequest, CreateExecutionConfirmation, UpdateExecutionConfirmation,
}
use gb_516_hydropower_gate_d.Repository.{Platform, Db, Context, directives, gates, confirmations}
use gb_516_hydropower_gate_d.Repository.Calls.Keeps.{
  Keeps, Keeps-pure, Keeps-ask, Keeps-if, Keeps-bind, Keeps-check, Keeps-after, Keeps-within,
}
use gb_516_hydropower_gate_d.Repository.Store
use gb_516_hydropower_gate_d.Repository.Directives.Keeps.{get_by_code-Found}
use gb_516_hydropower_gate_d.Service.Common.{Caller}
use gb_516_hydropower_gate_d.Service.Confirmation.{
  Outcome, outcome_of, settle_gate, settle_outcome, record_transition, create, update, transition,
  delete,
}
use gb_516_hydropower_gate_d.Service.Confirmation.Admit.{IsFound, later, first, admit-Runs}
use gb_516_hydropower_gate_d.Service.Confirmation.Reads.{Keeps-require, Keeps-admit}
use gb_516_hydropower_gate_d.System.Preserved.{Preserved}
use gb_516_hydropower_gate_d.System.Directives.{same_id}
use gb_516_hydropower_gate_d.System.Audit.{Keeps-audit}

outcome_target :
    (target : String) (o : Outcome)
    → ((outcome_of target o.directive o.gate).directive_target ≡ "completed")
      ⊎ ((outcome_of target o.directive o.gate).directive_target ≡ "aborted")
outcome_target target o = ground arith

module _ {p : Platform} {P : Db → Type 0} {Q : OperationDirective → Type 0} {N : Caller → Type 0}
    (k : Preserved p P Q N) where
  -- What `Transition` may assume of the directive that it settles.
  IsSettled : Option Outcome → Type 0
  IsSettled none = Unit
  IsSettled (some o) =
      Q o.directive
      × (o.directive.status ≡ "executing")
      × ((o.directive_target ≡ "completed") ⊎ (o.directive_target ≡ "aborted"))

  IsFound-IsSettled :
      {db : Db} {c : ExecutionConfirmation} {target : String} {o : Option Outcome}
      → P db
      → IsFound p db c target o
      → IsSettled o
  unfolding IsSettled
  IsFound-IsSettled h (later _ e) = subst IsSettled (sym e) tt
  IsFound-IsSettled {db} {c} {target} h (first d gate _ e executing _ _) =
      let (row, q, xs, found, same) = get_by_code-Found p c.related_code db executing.found in
      subst IsSettled (sym e) (
        subst Q (sym same) (k.read db _ row xs h found),
        executing.status,
        outcome_target target (outcome_of target d gate),
      )

  module _ (ctx : Context) where
    Keeps-settle_gate :
        (input : TransitionRequest) (who : Caller) (o : Outcome)
        → Keeps P (settle_gate p ctx input who o)
    unfolding settle_gate
    Keeps-settle_gate input who o = Keeps-if P _ _ _ (Keeps-pure P tt) (
        Keeps-bind P _ _ (Store.Keeps.Keeps-update P p gates o.gate.id _ _ (λ db h. k.gates db _ h))
          λ _. Keeps-audit k ctx who _ _ _ _ _ _)

    Keeps-settle_outcome :
        (input : TransitionRequest) (who : Caller) (o : Option Outcome)
        → IsSettled o
        → Keeps P (settle_outcome p ctx input who o)
    unfolding settle_outcome IsSettled
    Keeps-settle_outcome input who none good = Keeps-pure P tt
    Keeps-settle_outcome input who (some o) good =
        Keeps-bind P _ _
          (Store.Keeps.Keeps-update P p directives o.directive.id _ _ (λ db h.
            k.write db _ _ (same_id o.directive.id _ o.directive.id refl)
              (k.settles o.directive _ _ _ good.0 good.1 good.2) h))
          λ _.
            Keeps-bind P _ _ (Keeps-audit k ctx who _ _ _ _ _ _) λ _. Keeps-settle_gate input who o

    pub Keeps-create :
        (input : CreateExecutionConfirmation) (who : Caller) → Keeps P (create p ctx input who)
    unfolding create
    Keeps-create input who = Keeps-bind P _ _ (Keeps-ask P _) λ _.
        Keeps-bind P _ _ (Keeps-require p P input.related_code) λ d.
          Keeps-bind P _ _ (Keeps-ask P _) λ count. Keeps-check P _ _ _ λ _.
            Keeps-within P p ctx _ λ tx.
              Keeps-bind P _ _
                (Store.Keeps.Keeps-create P p confirmations tx _
                  (λ db n fresh apart h. k.confirmations db _ h))
                λ item. Keeps-bind P _ _ (Keeps-audit k tx who _ _ _ _ _ _) λ _. Keeps-pure P item

    pub Keeps-update :
        (id : ℕ) (input : UpdateExecutionConfirmation) (who : Caller)
        → Keeps P (update p ctx id input who)
    unfolding update
    Keeps-update id input who = Keeps-bind P _ _ (Keeps-ask P _) λ current.
        Keeps-bind P _ _ (Keeps-ask P _) λ _. Keeps-check P _ _ _ λ _. Keeps-check P _ _ _ λ _.
          Keeps-bind P _ _ (Keeps-require p P current.related_code) λ d.
            Keeps-bind P _ _
              (Keeps-within P p ctx _ λ tx.
                Keeps-bind P _ _
                  (Store.Keeps.Keeps-update P p confirmations id _ _
                    (λ db h. k.confirmations db _ h))
                  λ _. Keeps-audit k tx who _ _ _ _ _ _)
              λ _. Keeps-ask P _

    Keeps-record_transition :
        (id : ℕ) (input : TransitionRequest) (who : Caller) (c : ExecutionConfirmation)
        (o : Option Outcome)
        → IsSettled o
        → Keeps P (record_transition p ctx id input who c o)
    unfolding record_transition
    Keeps-record_transition id input who c o good = Keeps-within P p ctx _ λ tx.
        Keeps-bind P _ _
          (Store.Keeps.Keeps-update P p confirmations id _ _ (λ db h. k.confirmations db _ h))
          λ _.
            Keeps-bind P _ _ (Keeps-audit k tx who _ _ _ _ _ _)
              λ _. Keeps-settle_outcome input who o good

    pub Keeps-transition :
        (id : ℕ) (input : TransitionRequest) (who : Caller)
        → Keeps P (transition p ctx id input who)
    unfolding transition
    Keeps-transition id input who =
        Keeps-after P (λ x. IsSettled x.1) _ _ (Keeps-admit p P ctx id input)
          (λ db db' x h run. IsFound-IsSettled h ((admit-Runs p ctx id input run).0).outcome)
          λ x good.
            Keeps-bind P _ _ (Keeps-record_transition id input who x.0 x.1 good) λ _. Keeps-ask P _

    pub Keeps-delete : (id : ℕ) (who : Caller) → Keeps P (delete p ctx id who)
    unfolding delete
    Keeps-delete id who = Keeps-bind P _ _ (Keeps-ask P _) λ current. Keeps-check P _ _ _ λ _.
        Keeps-within P p ctx _ λ tx.
          Keeps-bind P _ _
            (Store.Keeps.Keeps-delete P p confirmations tx id (λ db h. k.confirmations db _ h))
            λ _. Keeps-audit k tx who _ _ _ _ _ _
