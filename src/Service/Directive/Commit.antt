-- ===== src/Service/Directive/Commit.antt =====
-- What a successful `Transition` of a directive leaves in the database, table by table.
use gb_516_hydropower_gate_d.Prelude.{
  ℕ, ◌≡◌, refl, String, true, false, ◌==◌, ◌||◌, string_eq, Option, none, some, sym, Bool-cases,
  inl, inr, subst,
}
use gb_516_hydropower_gate_d.Text.{trim_space}
use gb_516_hydropower_gate_d.Failure.{ok}
use gb_516_hydropower_gate_d.Model.{OperationDirective}
use gb_516_hydropower_gate_d.Dto.{TransitionRequest}
use gb_516_hydropower_gate_d.Repository.{Platform, Db, Context}
use gb_516_hydropower_gate_d.Repository.Calls.Runs.{
  Runs, bind-Runs, asks-Runs, pure-Runs, within-Runs,
}
use gb_516_hydropower_gate_d.Repository.Directives
use gb_516_hydropower_gate_d.Repository.Directives.Laws.{IsRecorded, transition_with_approval-Runs}
use gb_516_hydropower_gate_d.Service.Common.{Caller}
use gb_516_hydropower_gate_d.Service.GateMove.{IsGateMoved, move-Runs}
use gb_516_hydropower_gate_d.Service.Directive.Defs.{
  Link, advanced, approval_of, transition_log, move_gate, record_transition, transition,
}
use gb_516_hydropower_gate_d.Service.Directive.Admit.{IsAdmitted, admit-Runs}

-- What became of the gate of the link: nothing to do, or brought to its target with an audit record.
pub data IsLinkMoved (ctx : Context) (who : Caller) (reason : String) (link : Option Link)
    (db db' : Db) : Type 0 where
  no_link : link ≡ none → db' ≡ db → IsLinkMoved ctx who reason link db db'
  in_place :
      (l : Link)
      → link ≡ some l
      → (l.gate_target == "" || l.gate.status == l.gate_target) ≡ true
      → db' ≡ db
      → IsLinkMoved ctx who reason link db db'
  to_target :
      (l : Link)
      → link ≡ some l
      → (l.gate_target == "" || l.gate.status == l.gate_target) ≡ false
      → IsGateMoved ctx who "directive_execution" reason l.gate l.gate_target db db'
      → IsLinkMoved ctx who reason link db db'

module _ (p : Platform) (ctx : Context) where
  move_gate-Runs :
      (input : TransitionRequest) (who : Caller) (link : Option Link) {db db' : Db} {u : Unit {0}}
      → Runs (move_gate p ctx input who link) db u db'
      → IsLinkMoved ctx who input.reason link db db'
  unfolding move_gate
  move_gate-Runs input who none h = no_link refl (sym (pure-Runs h).1)
  move_gate-Runs input who (some l) {db} {db'} h =
      elim (Bool-cases (l.gate_target == "" || l.gate.status == l.gate_target)) [
        | inl idle ↦ in_place l refl idle (sym (pure-Runs (rw idle at h)).1)
        | inr busy ↦ to_target l refl busy (
            move-Runs p ctx who "directive_execution" input.reason l.gate l.gate_target
              (rw busy at h))
      ]

  -- The transaction of `Transition`: the directive with its approval and its audit record, then the
  -- gate.
  pub record IsCommitted (id : ℕ) (input : TransitionRequest) (who : Caller)
      (d : OperationDirective) (link : Option Link) (db db' : Db) : Type 0 where
    pub between : Db
    pub recorded :
        IsRecorded ctx.now id input.expected_version
          (advanced ctx input who (trim_space input.status) d)
          (approval_of ctx input who d.status (trim_space input.status))
          (transition_log ctx id input who d.status (trim_space input.status))
          db
          between
    pub moved : IsLinkMoved ctx who input.reason link between db'

  pub record_transition-Runs :
      (id : ℕ) (input : TransitionRequest) (who : Caller) (d : OperationDirective)
      (link : Option Link) {db db' : Db} {u : Unit {0}}
      → Runs (record_transition p ctx id input who d link) db u db'
      → IsCommitted id input who d link db db'
  unfolding record_transition
  record_transition-Runs id input who d link h =
      let (_, between, r₁, r₂) = bind-Runs (within-Runs p ctx _ h) in
      record {
        between = between;
        recorded = transition_with_approval-Runs p _ id _ _ _ _ r₁;
        moved = move_gate-Runs input who link r₂;
      }

  -- A successful `Transition`: what it read, what it wrote, and that it answers with the directive
  -- as it then is.
  pub record IsTransition (id : ℕ) (input : TransitionRequest) (who : Caller)
      (item : OperationDirective) (db db' : Db) : Type 0 where
    pub directive : OperationDirective
    pub link : Option Link
    pub admitted : IsAdmitted p db id input who directive link
    pub committed : IsCommitted id input who directive link db db'
    pub answer : Directives.get p id db' ≡ ok item

  pub transition-Runs :
      (id : ℕ) (input : TransitionRequest) (who : Caller) {item : OperationDirective} {db db' : Db}
      → Runs (transition p ctx id input who) db item db'
      → IsTransition id input who item db db'
  unfolding transition
  transition-Runs id input who {item} {db} {db'} h =
      let ((d, link), db₁, r₁, h₁) = bind-Runs h in
      let (_, db₂, r₂, h₂) = bind-Runs h₁ in
      let (admitted, same) = admit-Runs p ctx id input who r₁ in
      let (answer, same') = asks-Runs _ h₂ in
      record {
        directive = d;
        link = link;
        admitted = admitted;
        committed =
            subst (λ x. IsCommitted id input who d link x db') (sym same)
              (subst (IsCommitted id input who d link db₁) same'
                (record_transition-Runs id input who d link r₂));
        answer = subst (λ x. Directives.get p id x ≡ ok item) same' answer;
      }
