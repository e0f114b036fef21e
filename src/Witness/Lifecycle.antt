-- ===== src/Witness/Lifecycle.antt =====
-- The lives of directives, at a database with one that is executing.
use gb_516_hydropower_gate_d.Prelude.{◌≡◌, refl, inr, List, [], ◌∷◌}
use gb_516_hydropower_gate_d.Repository.{Db, Context}
use gb_516_hydropower_gate_d.Service.Common.{Caller}
use gb_516_hydropower_gate_d.System.Requests.{Request, move_directive, move_confirmation, serve}
use gb_516_hydropower_gate_d.System.Lifecycle.{
  IsHistory, status_in, serve-IsHistory, serve-finished,
}
use gb_516_hydropower_gate_d.Witness.Data.{platform, context, caller, to_status, database}

abbrev orders : List (Context × Caller × Request)
orders =
    (context, caller "carl" "operator", move_confirmation 1 (to_status "confirmed" 1))
    ∷ (context, caller "carl" "operator", move_directive 1 (to_status "aborted" 4))
    ∷ []

abbrev executing : Db
executing = database "closed" "executing" "pending"

abbrev aborted : Db
aborted = database "closed" "aborted" "pending"

serve-IsHistory_example : IsHistory executing.directives (serve platform orders executing)
serve-IsHistory_example = serve-IsHistory platform orders executing (refl, tt)

serve-finished_example :
    status_in (serve platform orders aborted).directives 1 ≡ status_in aborted.directives 1
serve-finished_example = serve-finished platform orders aborted 1 (refl, tt) (inr refl)
