-- ===== src/Service/Directive/Admit.antt =====
-- What the checks of `Transition` have established when they let a request through.
use gb_516_hydropower_gate_d.Prelude.{
  ℕ, ◌≡◌, refl, String, true, false, not, ◌!=◌, ◌==◌, ◌&&◌, ◌||◌, string_eq, Option, none, some,
  Bool-cases, inl, inr, sym, subst, ◌∙◌,
}
use gb_516_hydropower_gate_d.Text.{trim_space, equal_fold}
use gb_516_hydropower_gate_d.Failure.{ok}
use gb_516_hydropower_gate_d.Constants.{
  can_transition, gate_unit_transitions, operation_directive_transitions,
}
use gb_516_hydropower_gate_d.Model.{OperationDirective}
use gb_516_hydropower_gate_d.Dto.{TransitionRequest}
use gb_516_hydropower_gate_d.Repository.{Platform, Db, Context, gates}
use gb_516_hydropower_gate_d.Repository.Calls.Runs.{
  Runs, bind-Runs, ask-Runs, check-Runs, pure-Runs,
}
use gb_516_hydropower_gate_d.Repository.Store
use gb_516_hydropower_gate_d.Repository.Directives
use gb_516_hydropower_gate_d.Service.Common.{Caller}
use gb_516_hydropower_gate_d.Service.Directive.Defs.{
  Link, link_gate, needs_gate, gate_target_of, directive_role_allowed, admit,
}

-- How `gate` and `gateTarget` were chosen.
pub data IsLinked (p : Platform) (db : Db) (d : OperationDirective) (target : String)
    (link : Option Link) : Type 0 where
  unlinked : needs_gate d target ≡ false → link ≡ none → IsLinked p db d target link
  linked :
      (l : Link)
      → needs_gate d target ≡ true
      → link ≡ some l
      → Store.get_by_code p gates d.related_code db ≡ ok l.gate
      → l.gate_target ≡ gate_target_of d target l.gate
      → not (target == "executing" && l.gate.status == "locked") ≡ true
      → not (
          l.gate_target != ""
          && l.gate.status != l.gate_target
          && not (can_transition gate_unit_transitions l.gate.status l.gate_target))
        ≡ true
      → IsLinked p db d target link

pub link_gate-Runs :
    (p : Platform) (d : OperationDirective) (target : String) {db db' : Db} {link : Option Link}
    → Runs (link_gate p d target) db link db'
    → IsLinked p db d target link × (db ≡ db')
unfolding link_gate
link_gate-Runs p d target {db} h = elim (Bool-cases (needs_gate d target)) [
  | inr idle ↦ (let (e, same) = pure-Runs (rw idle at h) in (unlinked idle (sym e), same))
  | inl busy ↦
      (let (gate, found, h₁) = ask-Runs _ (rw busy at h) in
        let (unlocked, h₂) = check-Runs _ _ _ h₁ in
        let (edge, h₃) = check-Runs _ _ _ h₂ in
        let (e, same) = pure-Runs h₃ in
        (
          linked (record { gate = gate; gate_target = gate_target_of d target gate }) busy (sym e)
              found refl unlocked edge,
          same,
        ))
]

pub record IsAdmitted (p : Platform) (db : Db) (id : ℕ) (input : TransitionRequest) (who : Caller)
    (d : OperationDirective) (link : Option Link) : Type 0 where
  pub found : Directives.get p id db ≡ ok d
  pub edge :
      can_transition operation_directive_transitions d.status (trim_space input.status) ≡ true
  pub unfinished : not (trim_space input.status == "completed") ≡ true
  pub role : directive_role_allowed (trim_space input.status) who.role ≡ true
  pub second_person :
      not (
        trim_space input.status == "approved"
        && (d.submitted_by == "" || equal_fold p.unicode d.submitted_by who.actor))
      ≡ true
  pub gate : IsLinked p db d (trim_space input.status) link

-- `admit` lets through what passes every check, and writes nothing.
pub admit-Runs :
    (p : Platform) (ctx : Context) (id : ℕ) (input : TransitionRequest) (who : Caller) {db db' : Db}
    {d : OperationDirective} {link : Option Link}
    → Runs (admit p ctx id input who) db (d, link) db'
    → IsAdmitted p db id input who d link × (db ≡ db')
unfolding admit
admit-Runs p ctx id input who {db} h =
    let (d, found, h₁) = ask-Runs _ h in
    let (edge, h₂) = check-Runs _ _ _ h₁ in
    let (unfinished, h₃) = check-Runs _ _ _ h₂ in
    let (role, h₄) = check-Runs _ _ _ h₃ in
    let (link, db₁, l, h₅) = bind-Runs h₄ in
    let (gate, same) = link_gate-Runs p d _ l in
    let (second, h₆) = check-Runs _ _ _ h₅ in
    let (e, same') = pure-Runs h₆ in
    (
      subst (λ (x : OperationDirective × Option Link). IsAdmitted p db id input who x.0 x.1) e
          (record {
            found = found;
            edge = edge;
            unfinished = unfinished;
            role = role;
            second_person = second;
            gate = gate;
          }),
      same ∙ same',
    )
