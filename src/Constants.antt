-- ===== src/Constants.antt =====
-- backend/internal/constants/status.go: the status graphs.
pub mod Edges
use gb_516_hydropower_gate_d.Prelude.{
  String, Bool, true, false, Option, none, some, List, [], ◌∷◌, ◌==◌, string_eq, if◌then◌else◌,
}

-- map[string]map[string]bool; a target that a map holds is mapped to true.
abbrev pub Graph : Type 0
Graph = List (String × List String)

abbrev pub contains : List String → String → Bool
contains [] s = false
contains (x ∷ xs) s = if x == s then true else contains xs s

abbrev pub targets? : Graph → String → Option (List String)
targets? [] from = none
targets? ((node, targets) ∷ g) from = if node == from then some targets else targets? g from

unfoldable pub can_transition : Graph → String → String → Bool
can_transition graph from to = elim (targets? graph from) [
  | none ↦ false
  | some targets ↦ contains targets to
]

abbrev pub reservoir_transitions : Graph
reservoir_transitions =
    ("normal", "warning" ∷ "critical" ∷ [])
    ∷ ("warning", "critical" ∷ "restricted" ∷ "normal" ∷ [])
    ∷ ("critical", "restricted" ∷ "warning" ∷ [])
    ∷ ("restricted", "critical" ∷ [])
    ∷ []

abbrev pub gate_unit_transitions : Graph
gate_unit_transitions =
    ("open", "moving" ∷ "locked" ∷ [])
    ∷ ("closed", "moving" ∷ "locked" ∷ [])
    ∷ ("moving", "open" ∷ "closed" ∷ "locked" ∷ [])
    ∷ ("locked", "closed" ∷ [])
    ∷ []

abbrev pub operation_directive_transitions : Graph
operation_directive_transitions =
    ("draft", "pending" ∷ [])
    ∷ ("pending", "approved" ∷ "aborted" ∷ [])
    ∷ ("approved", "executing" ∷ "aborted" ∷ [])
    ∷ ("executing", "completed" ∷ "aborted" ∷ [])
    ∷ ("completed", [])
    ∷ ("aborted", [])
    ∷ []

abbrev pub execution_confirmation_transitions : Graph
execution_confirmation_transitions =
    ("pending", "confirmed" ∷ "failed" ∷ [])
    ∷ ("confirmed", [])
    ∷ ("failed", "cancelled" ∷ [])
    ∷ ("cancelled", [])
    ∷ []
