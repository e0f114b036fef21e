-- ===== src/Service/Confirmation/Effects.antt =====
-- What the confirmation of an execution, or its failure, means for the directive and the gate.
use gb_516_hydropower_gate_d.Prelude.{
  refl, ℕ, ◌<◌, ◌^◌, ◌≡◌, String, true, false, ◌==◌, nat_eq, string_eq, Option, some, arith, eq_iff,
  ap, sym, subst, ◌∙◌, All, All-find, find?, find?_passes, rewrite,
}
use gb_516_hydropower_gate_d.Text.{trim_space}
use gb_516_hydropower_gate_d.Failure.{Result, ok}
use gb_516_hydropower_gate_d.Model.{GateUnit, OperationDirective, ExecutionConfirmation}
use gb_516_hydropower_gate_d.Dto.{TransitionRequest}
use gb_516_hydropower_gate_d.Orm.{scoped}
use gb_516_hydropower_gate_d.Repository.{
  Platform, Db, Context, schema, directives, confirmations, gates,
}
use gb_516_hydropower_gate_d.Repository.Calls.Runs.{Runs}
use gb_516_hydropower_gate_d.Repository.Store
use gb_516_hydropower_gate_d.Repository.Store.{has_id, is_version, overwrite}
use gb_516_hydropower_gate_d.Repository.Store.Laws.{get_by_code_found}
use gb_516_hydropower_gate_d.Repository.Store.Lock.{find?-overwritten, has_id-IsKept}
use gb_516_hydropower_gate_d.Repository.Directives
use gb_516_hydropower_gate_d.Repository.Directives.Keeps.{get_by_code_finds}
use gb_516_hydropower_gate_d.Service.Common.{
  Caller, next_version, previous_version, previous_version-next_version,
}
use gb_516_hydropower_gate_d.Service.GateMove.Fate.{GateIs, unmoved-GateIs, moved-GateIs}
use gb_516_hydropower_gate_d.Service.Confirmation.Defs.{Outcome, outcome_of, transition}
use gb_516_hydropower_gate_d.Service.Confirmation.Admit.{IsFound, later, first}
use gb_516_hydropower_gate_d.Service.Confirmation.Commit.{
  IsGateSettled, in_place, to_target, IsSettled, IsOutcome, no_outcome, outcome, directive_version,
  concluded, transition-Runs,
}

-- Versions are Go's uint.
abbrev pub AllVersioned : Db → Type 0
AllVersioned db =
    All (λ (d : OperationDirective). d.version < 2 ^ 64) db.directives
    × All (λ (g : GateUnit). g.version < 2 ^ 64) db.gates

-- There is a live directive under the key, and the first of them, which a search finds, has the status.
abbrev pub DirectiveIs : ℕ → String → Db → Type 0
DirectiveIs id status db =
    (d : OperationDirective) × (find? (scoped (schema directives) (has_id directives id))
        db.directives
      ≡ some d)
    × (d.status ≡ status)

some-inj : {A : Type 0} {x y : A} → ◌≡◌ {A = Option A} (some x) (some y) → x ≡ y
some-inj h = ground arith

ok-inj :
    {x y : ExecutionConfirmation} → ◌≡◌ {A = Result ExecutionConfirmation} (ok x) (ok y) → x ≡ y
ok-inj h = ground arith

directive_version_own :
    (row : OperationDirective) (id : ℕ)
    → row.version < 2 ^ 64
    → scoped (schema directives) (has_id directives id) row ≡ true
    → (row.id ≡ id) × (directive_version row row ≡ true)
directive_version_own row id small h =
    let back = previous_version-next_version row.version small in
    (ground (arith, h), ground (arith, h, back))

module _ (p : Platform) (ctx : Context) (who : Caller) (reason : String) where
  gate_table :
      (o : Outcome) {db db' : Db}
      → IsGateSettled ctx who reason o db db'
      → db'.directives ≡ db.directives
  gate_table o (in_place e same) = ap (λ (x : Db). x.directives) same
  gate_table o (to_target moved) = ap (λ (x : Db). x.directives) moved.left

  -- The directive of the outcome ends in its target.
  settled-DirectiveIs :
      (o : Outcome) (code : String) (db : Db) {between db' : Db}
      → Directives.get_by_code p code db ≡ ok o.directive
      → All (λ (d : OperationDirective). d.version < 2 ^ 64) db.directives
      → between.directives ≡ db.directives
      → IsSettled ctx who reason o between db'
      → DirectiveIs o.directive.id o.directive_target db'
  unfolding overwrite
  settled-DirectiveIs o code db found small same s =
      let (row, xs, f, e) = get_by_code_finds p code db found in
      let q = scoped (schema directives) (has_id directives o.directive.id) in
      let item = concluded ctx.now o.directive_target o.directive in
      let id_same = ap (λ (x : OperationDirective). x.id) e in
      let row_small =
        All-find (λ (d : OperationDirective). d.version < 2 ^ 64) _ db.directives small f in
      let own =
        directive_version_own row row.id row_small
          (find?_passes (scoped (schema directives) (has_id directives row.id)) db.directives f) in
      let after =
        find?-overwritten directives (has_id directives o.directive.id) o.directive.id
          (previous_version (next_version o.directive.version)) item db.directives
          (has_id-IsKept directives o.directive.id item)
          (subst
            (λ k. find? (scoped (schema directives) (has_id directives k)) db.directives ≡ some row)
            (sym id_same) f)
          (subst (λ x. directive_version x row ≡ true) (sym e) own.1) in
      let table =
        gate_table o s.gate
        ∙ ap (λ (x : Db). x.directives) s.ended
        ∙ ap (λ ds. rewrite (directive_version o.directive) (overwrite directives item) ds) same in
      (overwrite directives item row, ap (λ ds. find? q ds) table ∙ after, refl)

  settled-GateIs :
      (o : Outcome) (code : String) (db : Db) {between db' : Db}
      → Store.get_by_code p gates code db ≡ ok o.gate
      → All (λ (g : GateUnit). g.version < 2 ^ 64) db.gates
      → between.gates ≡ db.gates
      → IsSettled ctx who reason o between db'
      → GateIs p code o.gate_target db'
  settled-GateIs o code db {between = between} {db' = db'} found small same s = elim s.gate [
    | in_place e left ↦
        subst (λ t. GateIs p code t db') e
          (unmoved-GateIs p code o.gate db db' found
            (ap (λ (x : Db). x.gates) left ∙ ap (λ (x : Db). x.gates) s.ended ∙ same))
    | to_target moved ↦
        moved-GateIs p code o.gate db db' found
          (All-find (λ (g : GateUnit). g.version < 2 ^ 64) _ db.gates small
            (get_by_code_found p gates code db found))
          (ap (λ (x : Db). x.gates) s.ended ∙ same) moved
  ]

  -- A pending confirmation, moved along an edge of its graph.
  IsConcluded : ExecutionConfirmation → String → Db → Db → Type 0
  IsConcluded c target db db' =
      (d : OperationDirective) × (gate : GateUnit) × (Directives.get_by_code p c.related_code db
        ≡ ok d)
      × (d.status ≡ "executing")
      × (Store.get_by_code p gates d.related_code db ≡ ok gate)
      × DirectiveIs d.id (outcome_of target d gate).directive_target db'
      × GateIs p d.related_code (outcome_of target d gate).gate_target db'

  IsConcluded-cases :
      (c : ExecutionConfirmation) (target : String) (o : Option Outcome) (db : Db)
      {between db' : Db}
      → c.status ≡ "pending"
      → AllVersioned db
      → between.directives ≡ db.directives
      → between.gates ≡ db.gates
      → IsFound p db c target o
      → IsOutcome ctx who reason o between db'
      → IsConcluded c target db db'
  unfolding IsConcluded
  IsConcluded-cases c target o db pending small same same' (later settled e) done =
      absurd (ground (arith, eq_iff c.status "pending"))
  IsConcluded-cases c target o db pending small same same' (first d gate _ e executing found edge)
        (no_outcome e' left) =
      absurd (ground arith)
  IsConcluded-cases c target o db {between = between} {db' = db'} pending small same same'
        (first d gate _ e executing found edge) (outcome x e' settled) =
      let s = subst (λ y. IsSettled ctx who reason y between db') (some-inj (sym e' ∙ e)) settled in
      (
        d,
        gate,
        executing.found,
        executing.status,
        found,
        settled-DirectiveIs (outcome_of target d gate) c.related_code db executing.found small.0
            same s,
        settled-GateIs (outcome_of target d gate) d.related_code db found small.1 same' s,
      )

module _ (p : Platform) (ctx : Context) (id : ℕ) (input : TransitionRequest) (who : Caller) where
  transition-IsConcluded :
      {c item : ExecutionConfirmation} {db db' : Db}
      → AllVersioned db
      → c.status ≡ "pending"
      → Store.get p confirmations id db ≡ ok c
      → Runs (transition p ctx id input who) db item db'
      → IsConcluded p ctx who input.reason c (trim_space input.status) db db'
  transition-IsConcluded {c = c} {db = db} {db' = db'} small pending found h =
      let (c', o, admitted, committed, answer) = transition-Runs p ctx input who id h in
      let e = ok-inj (sym admitted.found ∙ found) in
      IsConcluded-cases p ctx who input.reason c (trim_space input.status) o db pending small
        (ap (λ (x : Db). x.directives) committed.recorded)
        (ap (λ (x : Db). x.gates) committed.recorded)
        (subst (λ x. IsFound p db x (trim_space input.status) o) e admitted.outcome)
        committed.outcome

  -- When versions are below 2 ^ 64: a pending confirmation is confirmed only while its directive
  -- executes and its gate is found; afterwards there is a directive under the key, which is
  -- completed, and a gate under the code, which is in the state that the directive asked for.
  pub confirmed_completes :
      {c item : ExecutionConfirmation} {db db' : Db}
      → AllVersioned db
      → c.status ≡ "pending"
      → trim_space input.status ≡ "confirmed"
      → Store.get p confirmations id db ≡ ok c
      → Runs (transition p ctx id input who) db item db'
      → (d : OperationDirective) × (gate : GateUnit) × (Directives.get_by_code p c.related_code db
          ≡ ok d)
        × (d.status ≡ "executing")
        × (Store.get_by_code p gates d.related_code db ≡ ok gate)
        × DirectiveIs d.id "completed" db'
        × GateIs p d.related_code d.gate_state db'
  unfolding IsConcluded
  confirmed_completes {c = c} {db = db} {db' = db'} small pending confirmed found h =
      let (d, gate, read, executing, there, ended, moved) =
        transition-IsConcluded small pending found h in
      (d, gate, read, executing, there, rw confirmed at ended, rw confirmed at moved)

  -- When versions are below 2 ^ 64: a pending confirmation leaves its status for any but confirmed
  -- only while its directive executes and its gate is found; afterwards there is a directive under
  -- the key, which is aborted, and a gate under the code, which is locked.
  pub failed_aborts :
      {c item : ExecutionConfirmation} {db db' : Db}
      → AllVersioned db
      → c.status ≡ "pending"
      → (trim_space input.status == "confirmed") ≡ false
      → Store.get p confirmations id db ≡ ok c
      → Runs (transition p ctx id input who) db item db'
      → (d : OperationDirective) × (gate : GateUnit) × (Directives.get_by_code p c.related_code db
          ≡ ok d)
        × (d.status ≡ "executing")
        × (Store.get_by_code p gates d.related_code db ≡ ok gate)
        × DirectiveIs d.id "aborted" db'
        × GateIs p d.related_code "locked" db'
  unfolding IsConcluded
  failed_aborts {c = c} {db = db} {db' = db'} small pending other found h =
      let (d, gate, read, executing, there, ended, moved) =
        transition-IsConcluded small pending found h in
      (d, gate, read, executing, there, rw other at ended, rw other at moved)
