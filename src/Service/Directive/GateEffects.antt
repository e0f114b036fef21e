-- ===== src/Service/Directive/GateEffects.antt =====
-- What became of the gate when an execution started, or was aborted.
use gb_516_hydropower_gate_d.Prelude.{
  ℕ, ◌<◌, ◌^◌, ◌≡◌, ◌≢◌, ◌⊎◌, inl, inr, refl, String, true, false, not, ◌==◌, ◌&&◌, ◌||◌, string_eq,
  Option, some, arith, eq_iff, ap, sym, subst, ◌∙◌, All, All-find,
}
use gb_516_hydropower_gate_d.Text.{trim_space}
use gb_516_hydropower_gate_d.Failure.{ok}
use gb_516_hydropower_gate_d.Model.{GateUnit, OperationDirective}
use gb_516_hydropower_gate_d.Dto.{TransitionRequest}
use gb_516_hydropower_gate_d.Repository.{Platform, Db, Context, gates}
use gb_516_hydropower_gate_d.Repository.Calls.Runs.{Runs}
use gb_516_hydropower_gate_d.Repository.Store.{get_by_code}
use gb_516_hydropower_gate_d.Repository.Store.Laws.{get_by_code_found}
use gb_516_hydropower_gate_d.Repository.Directives
use gb_516_hydropower_gate_d.Service.Common.{Caller}
use gb_516_hydropower_gate_d.Service.GateMove.{IsGateMoved}
use gb_516_hydropower_gate_d.Service.GateMove.Fate.{GateIs, unmoved-GateIs, moved-GateIs}
use gb_516_hydropower_gate_d.Service.Directive.Defs.{Link, transition, needs_gate, gate_target_of}
use gb_516_hydropower_gate_d.Service.Directive.Admit.{IsLinked, unlinked, linked}
use gb_516_hydropower_gate_d.Service.Directive.Commit.{IsLinkMoved, no_link, in_place, to_target}
use gb_516_hydropower_gate_d.Service.Directive.Effects.{transition-IsDone}

-- Versions are Go's uint.
abbrev pub AllVersioned : Db → Type 0
AllVersioned db = All (λ (g : GateUnit). g.version < 2 ^ 64) db.gates

-- The gate of a directive was found, and is afterwards where the step wants it, or was not written.
pub data IsDriven (p : Platform) (d : OperationDirective) (target : String) (db db' : Db)
    : Type 0 where
  driven :
      (gate : GateUnit)
      → get_by_code p gates d.related_code db ≡ ok gate
      → not (target == "executing" && gate.status == "locked") ≡ true
      → ((gate_target_of d target gate ≢ "")
          × GateIs p d.related_code (gate_target_of d target gate) db')
        ⊎ ((gate_target_of d target gate ≡ "") × GateIs p d.related_code gate.status db')
      → IsDriven p d target db db'

some-inj : {x y : Link} → ◌≡◌ {A = Option Link} (some x) (some y) → x ≡ y
some-inj h = ground arith

in_place_cases :
    (status target : String)
    → (target == "" || status == target) ≡ true
    → (target ≡ "") ⊎ (target ≢ "") × (status ≡ target)
in_place_cases status target h = ground (arith, eq_iff target "", eq_iff status target)

busy_target : (status target : String) → (target == "" || status == target) ≡ false → target ≢ ""
busy_target status target h = ground (arith, eq_iff target "")

aborting :
    (status target : String)
    → status ≡ "executing"
    → target ≡ "aborted"
    → (target == "executing" || (status == "executing" && target == "aborted")) ≡ true
aborting status target e f = rw (e, f) refl

target_executing :
    (d : OperationDirective) (gate : GateUnit)
    → (gate_target_of d "executing" gate ≡ "moving") × (gate.status ≢ d.gate_state)
      ⊎ (gate_target_of d "executing" gate ≡ "") × (gate.status ≡ d.gate_state)
target_executing d gate = ground (arith, eq_iff gate.status d.gate_state)

not_locked : (status : String) → not (status == "locked") ≡ true → status ≢ "locked"
not_locked status h e = ground (arith, eq_iff status "locked")

module _ (p : Platform) (d : OperationDirective) (target : String) (db db' : Db) where
  executing_gate :
      target ≡ "executing"
      → IsDriven p d target db db'
      → (gate : GateUnit) × (get_by_code p gates d.related_code db ≡ ok gate)
        × (gate.status ≢ "locked")
        × ((gate.status ≢ d.gate_state) × GateIs p d.related_code "moving" db'
            ⊎ (gate.status ≡ d.gate_state) × GateIs p d.related_code d.gate_state db')
  executing_gate e (driven gate found unlocked fate) = (
    gate,
    found,
    not_locked gate.status (rw e at unlocked),
    elim (target_executing d gate) [
      | inl (t, away) ↦ (elim (rw (e, t) at fate) [
        | inl (_, there) ↦ inl (away, there)
        | inr (absent, _) ↦ absurd (ground (arith, eq_iff "moving" ""))
      ])
      | inr (t, same) ↦ (elim (rw (e, t) at fate) [
        | inl (wanted, _) ↦ absurd (wanted refl)
        | inr (_, there) ↦ inr (same, subst (λ s. GateIs p d.related_code s db') same there)
      ])
    ],
  )

  aborted_gate :
      target ≡ "aborted"
      → IsDriven p d target db db'
      → (gate : GateUnit) × (get_by_code p gates d.related_code db ≡ ok gate)
        × GateIs p d.related_code "locked" db'
  aborted_gate e (driven gate found unlocked fate) = (
    gate,
    found,
    elim (rw e at fate) [
      | inl (_, there) ↦ there
      | inr (absent, _) ↦ absurd (ground (arith, eq_iff "locked" ""))
    ],
  )

module _ (p : Platform) (ctx : Context) (input : TransitionRequest) (who : Caller) where
  linked-IsDriven :
      (d : OperationDirective) (target : String) (link : Option Link) {db between db' : Db}
      → AllVersioned db
      → needs_gate d target ≡ true
      → between.gates ≡ db.gates
      → IsLinked p db d target link
      → IsLinkMoved ctx who input.reason link between db'
      → IsDriven p d target db db'
  linked-IsDriven d target link versioned busy same (unlinked idle e) moved = absurd (ground arith)
  linked-IsDriven d target link versioned busy same (linked l _ e found at unlocked edge)
        (no_link e' left) =
      absurd (ground arith)
  linked-IsDriven d target link {db = db} {between = between} {db' = db'} versioned busy same
        (linked l _ e found at unlocked edge) (in_place l' e' idle left) =
      let idle' =
        subst (λ (x : Link). (x.gate_target == "" || x.gate.status == x.gate_target) ≡ true)
          (some-inj (sym e' ∙ e)) idle in
      let stays =
        unmoved-GateIs p d.related_code l.gate db db' found
          (ap (λ (x : Db). x.gates) left ∙ same) in
      driven l.gate found unlocked (elim (in_place_cases l.gate.status l.gate_target idle') [
        | inl idle_target ↦ inr (sym at ∙ idle_target, stays)
        | inr (wanted, there) ↦ inl (
            subst (λ t. (t ≢ "") × GateIs p d.related_code t db') at
              (wanted, subst (λ s. GateIs p d.related_code s db') there stays))
      ])
  linked-IsDriven d target link {db = db} {between = between} {db' = db'} versioned busy same
        (linked l _ e found at unlocked edge) (to_target l' e' moves moved) =
      let back = some-inj (sym e' ∙ e) in
      let moves' =
        subst (λ (x : Link). (x.gate_target == "" || x.gate.status == x.gate_target) ≡ false) back
          moves in
      let moved' =
        subst
          (λ (x : Link).
            IsGateMoved ctx who "directive_execution" input.reason x.gate x.gate_target between db')
          back moved in
      let small =
        All-find (λ (g : GateUnit). g.version < 2 ^ 64) _ db.gates versioned
          (get_by_code_found p gates d.related_code db found) in
      driven l.gate found unlocked (
        inl (
          subst (λ t. (t ≢ "") × GateIs p d.related_code t db') at
            (
              busy_target l.gate.status l.gate_target moves',
              moved-GateIs p d.related_code l.gate db db' found small same moved',
            )))

  module _ (id : ℕ) where
    transition-IsDriven :
        {d item : OperationDirective} {db db' : Db}
        → AllVersioned db
        → needs_gate d (trim_space input.status) ≡ true
        → Directives.get p id db ≡ ok d
        → Runs (transition p ctx id input who) db item db'
        → IsDriven p d (trim_space input.status) db db'
    transition-IsDriven {d = d} {db = db} {db' = db'} versioned busy found h =
        let (link, (admitted, committed)) = transition-IsDone p ctx id input who found h in
        linked-IsDriven d (trim_space input.status) link {between = committed.between} versioned
          busy (ap (λ (x : Db). x.gates) committed.recorded.left) admitted.gate committed.moved

    -- When versions are below 2 ^ 64: a directive is executed only if its gate is found and is not
    -- locked; afterwards there is a gate under the same code, which is moving if it was not in the
    -- state that the directive asks for, and is still in that state if it was.
    pub execution_moves_gate :
        {d item : OperationDirective} {db db' : Db}
        → AllVersioned db
        → trim_space input.status ≡ "executing"
        → Directives.get p id db ≡ ok d
        → Runs (transition p ctx id input who) db item db'
        → (gate : GateUnit) × (get_by_code p gates d.related_code db ≡ ok gate)
          × (gate.status ≢ "locked")
          × ((gate.status ≢ d.gate_state) × GateIs p d.related_code "moving" db'
              ⊎ (gate.status ≡ d.gate_state) × GateIs p d.related_code d.gate_state db')
    execution_moves_gate {d = d} {db = db} {db' = db'} versioned starts found h =
        executing_gate p d _ db db' starts (transition-IsDriven versioned (rw starts refl) found h)

    -- When versions are below 2 ^ 64: an executing directive is aborted only if its gate is found;
    -- afterwards there is a gate under the same code, and it is locked.
    pub abort_locks_gate :
        {d item : OperationDirective} {db db' : Db}
        → AllVersioned db
        → trim_space input.status ≡ "aborted"
        → d.status ≡ "executing"
        → Directives.get p id db ≡ ok d
        → Runs (transition p ctx id input who) db item db'
        → (gate : GateUnit) × (get_by_code p gates d.related_code db ≡ ok gate)
          × GateIs p d.related_code "locked" db'
    abort_locks_gate {d = d} {db = db} {db' = db'} versioned aborts executing found h =
        aborted_gate p d _ db db' aborts
          (transition-IsDriven versioned (aborting d.status _ executing aborts) found h)
