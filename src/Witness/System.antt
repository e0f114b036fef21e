-- ===== src/Witness/System.antt =====
-- The theorems on sequences of requests and on failed requests at a concrete database.
use gb_516_hydropower_gate_d.Prelude.{◌≡◌, ◌⊎◌, refl, List, [], ◌∷◌, Extends}
use gb_516_hydropower_gate_d.Failure.{two_person_required}
use gb_516_hydropower_gate_d.Text.{trim_space, to_upper, equal_fold, ascii_only}
use gb_516_hydropower_gate_d.Orm.Memory.{memory}
use gb_516_hydropower_gate_d.Constants.{can_transition}
use gb_516_hydropower_gate_d.Repository.{Db, Context, ◌>>=◌}
use gb_516_hydropower_gate_d.Repository.Calls.Runs.{Fails}
use gb_516_hydropower_gate_d.Repository.Store
use gb_516_hydropower_gate_d.Repository.Directives
use gb_516_hydropower_gate_d.Service.Common.{Caller}
use gb_516_hydropower_gate_d.Service.Directive.{
  transition, admit, link_gate, directive_role_allowed,
}
use gb_516_hydropower_gate_d.System.Requests.{Request, move_directive, call, serve}
use gb_516_hydropower_gate_d.System.Safety.{AllTwoPerson, serve-AllTwoPerson, serve-append_only}
use gb_516_hydropower_gate_d.System.Atomicity.{RereadFails, failed_call_unchanged}
use gb_516_hydropower_gate_d.Witness.Data.{platform, context, caller, to_status, database}

abbrev requests : List (Context × Caller × Request)
requests =
    (context, caller "carl" "operator", move_directive 1 (to_status "executing" 3))
    ∷ (context, caller "carl" "operator", move_directive 1 (to_status "aborted" 4))
    ∷ []

abbrev before : Db
before = database "closed" "approved" "pending"

before-AllTwoPerson : AllTwoPerson ascii_only before
unfolding equal_fold
before-AllTwoPerson = ((λ released. (refl, refl, refl)), tt)

serve-AllTwoPerson_example : AllTwoPerson ascii_only (serve platform requests before)
serve-AllTwoPerson_example =
    serve-AllTwoPerson platform requests before (refl, (refl, tt)) before-AllTwoPerson

serve-append_only_example :
    Extends before.audits (serve platform requests before).audits
    × Extends before.approvals (serve platform requests before).approvals
serve-append_only_example = serve-append_only platform requests before

-- anna approves what anna submitted
abbrev own_approval : Request
own_approval = move_directive 1 (to_status "approved" 3)

abbrev pending : Db
pending = database "closed" "pending" "pending"

refused :
    Fails
      (call platform context (caller "anna" "admin") own_approval)
      pending
      two_person_required
      pending
unfolding call transition admit link_gate directive_role_allowed ◌>>=◌ trim_space to_upper
    equal_fold memory can_transition Store.get Directives.get
refused = record { run = refl }

failed_call_unchanged_example :
    (pending ≡ pending) ⊎ RereadFails platform own_approval two_person_required pending
failed_call_unchanged_example =
    failed_call_unchanged platform context (caller "anna" "admin") refl own_approval refused
