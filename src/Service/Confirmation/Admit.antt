-- ===== src/Service/Confirmation/Admit.antt =====
-- What the checks of the confirmation's `Transition` have established when they let a request
-- through.
use gb_516_hydropower_gate_d.Prelude.{
  ℕ, ◌≡◌, String, true, false, not, ◌!=◌, ◌==◌, ◌&&◌, string_eq, Option, none, some, arith, eq_iff,
  Bool-cases, inl, inr, sym, subst, ◌∙◌,
}
use gb_516_hydropower_gate_d.Text.{trim_space}
use gb_516_hydropower_gate_d.Failure.{ok}
use gb_516_hydropower_gate_d.Constants.{
  can_transition, gate_unit_transitions, execution_confirmation_transitions,
}
use gb_516_hydropower_gate_d.Model.{OperationDirective, ExecutionConfirmation, GateUnit}
use gb_516_hydropower_gate_d.Dto.{TransitionRequest}
use gb_516_hydropower_gate_d.Repository.{Platform, Db, Context, gates, confirmations}
use gb_516_hydropower_gate_d.Repository.Calls.Runs.{
  Runs, bind-Runs, ask-Runs, check-Runs, pure-Runs,
}
use gb_516_hydropower_gate_d.Repository.Store
use gb_516_hydropower_gate_d.Repository.Directives
use gb_516_hydropower_gate_d.Service.Confirmation.Defs.{
  Outcome, outcome_of, require_executing_directive, find_outcome, admit,
}

pub record IsExecuting (p : Platform) (db : Db) (code : String) (d : OperationDirective)
    : Type 0 where
  pub found : Directives.get_by_code p code db ≡ ok d
  pub status : d.status ≡ "executing"

is_executing : (s : String) → not (s != "executing") ≡ true → s ≡ "executing"
is_executing s h = ground (arith, eq_iff s "executing")

pub require-IsExecuting-Runs :
    (p : Platform) (code : String) {db db' : Db} {d : OperationDirective}
    → Runs (require_executing_directive p code) db d db'
    → IsExecuting p db code d × (db ≡ db')
unfolding require_executing_directive
require-IsExecuting-Runs p code {db} h =
    let (d, found, h₁) = ask-Runs _ h in
    let (executing, h₂) = check-Runs _ _ _ h₁ in
    let (e, same) = pure-Runs h₂ in
    (
      subst (λ x. IsExecuting p db code x) e
          (record { found = found; status = is_executing _ executing }),
      same,
    )

-- How the directive and the gate that the outcome settles were found.
pub data IsFound (p : Platform) (db : Db) (c : ExecutionConfirmation) (target : String)
    (o : Option Outcome) : Type 0 where
  later : (c.status == "pending") ≡ false → o ≡ none → IsFound p db c target o
  first :
      (d : OperationDirective) (gate : GateUnit)
      → c.status ≡ "pending"
      → o ≡ some (outcome_of target d gate)
      → IsExecuting p db c.related_code d
      → Store.get_by_code p gates d.related_code db ≡ ok gate
      → not (
          gate.status != (outcome_of target d gate).gate_target
          && not (
              can_transition gate_unit_transitions gate.status
                (outcome_of target d gate).gate_target))
        ≡ true
      → IsFound p db c target o

pub find_outcome-Runs :
    (p : Platform) (c : ExecutionConfirmation) (target : String) {db db' : Db} {o : Option Outcome}
    → Runs (find_outcome p c target) db o db'
    → IsFound p db c target o × (db ≡ db')
unfolding find_outcome
find_outcome-Runs p c target {db} h = elim (Bool-cases (c.status == "pending")) [
  | inr settled ↦ (let (e, same) = pure-Runs (rw settled at h) in (later settled (sym e), same))
  | inl pending ↦
      (let (d, db₁, r, h₁) = bind-Runs (rw pending at h) in
        let (executing, same) = require-IsExecuting-Runs p c.related_code r in
        let (gate, found, h₂) = ask-Runs _ h₁ in
        let (edge, h₃) = check-Runs _ _ _ h₂ in
        let (e, same') = pure-Runs h₃ in
        (
          first d gate ((eq_iff c.status "pending").0 pending) (sym e) executing
              (subst (λ x. Store.get_by_code p gates d.related_code x ≡ ok gate) (sym same) found)
              edge,
          same ∙ same',
        ))
]

pub record IsAdmitted (p : Platform) (db : Db) (id : ℕ) (input : TransitionRequest)
    (c : ExecutionConfirmation) (o : Option Outcome) : Type 0 where
  pub found : Store.get p confirmations id db ≡ ok c
  pub edge :
      can_transition execution_confirmation_transitions c.status (trim_space input.status) ≡ true
  pub outcome : IsFound p db c (trim_space input.status) o

pub admit-Runs :
    (p : Platform) (ctx : Context) (id : ℕ) (input : TransitionRequest) {db db' : Db}
    {c : ExecutionConfirmation} {o : Option Outcome}
    → Runs (admit p ctx id input) db (c, o) db'
    → IsAdmitted p db id input c o × (db ≡ db')
unfolding admit
admit-Runs p ctx id input {db} h =
    let (c, found, h₁) = ask-Runs _ h in
    let (edge, h₂) = check-Runs _ _ _ h₁ in
    let (o, db₁, r, h₃) = bind-Runs h₂ in
    let (outcome, same) = find_outcome-Runs p c _ r in
    let (e, same') = pure-Runs h₃ in
    (
      subst (λ (x : ExecutionConfirmation × Option Outcome). IsAdmitted p db id input x.0 x.1) e
          (record { found = found; edge = edge; outcome = outcome }),
      same ∙ same',
    )
