-- ===== src/Constants/Edges.antt =====
-- The edges of the status graphs, read off their tables.
use gb_516_hydropower_gate_d.Prelude.{
  ℕ, ◌<◌, ◌≤◌, ◌+◌, suc, subst, sym, String, ◌≡◌, true, ◌⊎◌, inl, inr, arith, eq_iff, ◌==◌,
  string_eq, if◌then◌else◌,
}
use gb_516_hydropower_gate_d.Constants.{can_transition, operation_directive_transitions}

-- The life of a directive: every edge goes forward, and `aborted` and `completed` have none.
pub data DirectiveStep : String → String → Type 0 where
  submit : DirectiveStep "draft" "pending"
  approve : DirectiveStep "pending" "approved"
  start : DirectiveStep "approved" "executing"
  complete : DirectiveStep "executing" "completed"
  abort_pending : DirectiveStep "pending" "aborted"
  abort_approved : DirectiveStep "approved" "aborted"
  abort_executing : DirectiveStep "executing" "aborted"

abbrev pub Edge : String → String → String → String → Type 0
Edge a b from to = (from ≡ a) × (to ≡ b)

pub directive_edges :
    (from to : String)
    → can_transition operation_directive_transitions from to ≡ true
    → Edge "draft" "pending" from to
      ⊎ Edge "pending" "approved" from to
      ⊎ Edge "approved" "executing" from to
      ⊎ Edge "executing" "completed" from to
      ⊎ Edge "pending" "aborted" from to
      ⊎ Edge "approved" "aborted" from to
      ⊎ Edge "executing" "aborted" from to
unfolding can_transition
directive_edges from to h = ground (
  arith,
  eq_iff "draft" from,
  eq_iff "pending" from,
  eq_iff "approved" from,
  eq_iff "executing" from,
  eq_iff "pending" to,
  eq_iff "approved" to,
  eq_iff "executing" to,
  eq_iff "aborted" to,
  eq_iff "completed" to,
)

-- Only an approved directive is executed, only an executing one is completed, and only a pending
-- one is approved.
pub before_executing :
    (from : String)
    → can_transition operation_directive_transitions from "executing" ≡ true
    → from ≡ "approved"
unfolding can_transition
before_executing from h = ground (
  arith,
  eq_iff "draft" from,
  eq_iff "pending" from,
  eq_iff "approved" from,
  eq_iff "executing" from,
)

pub before_completed :
    (from : String)
    → can_transition operation_directive_transitions from "completed" ≡ true
    → from ≡ "executing"
unfolding can_transition
before_completed from h = ground (
  arith,
  eq_iff "draft" from,
  eq_iff "pending" from,
  eq_iff "approved" from,
  eq_iff "executing" from,
)

pub before_approved :
    (from : String)
    → can_transition operation_directive_transitions from "approved" ≡ true
    → from ≡ "pending"
unfolding can_transition
before_approved from h = ground (
  arith,
  eq_iff "draft" from,
  eq_iff "pending" from,
  eq_iff "approved" from,
  eq_iff "executing" from,
)

-- Steps left at most from a status on.
abbrev pub steps_left : String → ℕ
steps_left status =
    if status == "draft"
    then 4
    else if status == "pending"
    then 3
    else if status == "approved"
    then 2
    else if status == "executing"
    then 1
    else 0

fewer_left :
    (from to : String)
    → can_transition operation_directive_transitions from to ≡ true
    → steps_left to < steps_left from
fewer_left from to h = elim (directive_edges from to h) [
  | inl (a, b) ↦ rw (a, b) (omega arith)
  | inr (inl (a, b)) ↦ rw (a, b) (omega arith)
  | inr (inr (inl (a, b))) ↦ rw (a, b) (omega arith)
  | inr (inr (inr (inl (a, b)))) ↦ rw (a, b) (omega arith)
  | inr (inr (inr (inr (inl (a, b))))) ↦ rw (a, b) (omega arith)
  | inr (inr (inr (inr (inr (inl (a, b)))))) ↦ rw (a, b) (omega arith)
  | inr (inr (inr (inr (inr (inr (a, b)))))) ↦ rw (a, b) (omega arith)
]

pub along :
    {a b : String} (from to : String) → Edge a b from to → DirectiveStep a b → DirectiveStep from to
along from to (e, f) s = subst (λ x. DirectiveStep x to) (sym e) (subst (DirectiveStep _) (sym f) s)

-- The graph has the steps of DirectiveStep and no others.
pub step_taken :
    (from to : String)
    → can_transition operation_directive_transitions from to ≡ true
    → DirectiveStep from to
step_taken from to h = elim (directive_edges from to h) [
  | inl e ↦ along from to e submit
  | inr (inl e) ↦ along from to e approve
  | inr (inr (inl e)) ↦ along from to e start
  | inr (inr (inr (inl e))) ↦ along from to e complete
  | inr (inr (inr (inr (inl e)))) ↦ along from to e abort_pending
  | inr (inr (inr (inr (inr (inl e))))) ↦ along from to e abort_approved
  | inr (inr (inr (inr (inr (inr e))))) ↦ along from to e abort_executing
]

-- A chain of transitions that the graph of the directives allows, one after the other.
pub data Chain : ℕ → String → String → Type 0 where
  stay : (status : String) → Chain 0 status status
  then_step :
      {n : ℕ} {from mid to : String}
      → can_transition operation_directive_transitions from mid ≡ true
      → Chain n mid to
      → Chain (suc n) from to

Chain-counted : {n : ℕ} {from to : String} → Chain n from to → n + steps_left to ≤ steps_left from
Chain-counted (stay status) = omega arith
Chain-counted (then_step {n = n} {from = from} {mid = mid} {to = to} edge rest) =
    let ih = Chain-counted rest in let fewer = fewer_left from mid edge in omega (arith, ih, fewer)

-- A chain of allowed transitions of a directive has at most four steps from draft, three from
-- pending, two from approved, one from executing, and none from completed or aborted.
pub Chain-bounded : {n : ℕ} {from to : String} → Chain n from to → n ≤ steps_left from
Chain-bounded chain = let counted = Chain-counted chain in omega (arith, counted)
