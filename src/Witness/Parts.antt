-- ===== src/Witness/Parts.antt =====
-- The theorems on the status graph, the lock of the store and the limiter at concrete inputs.
use gb_516_hydropower_gate_d.Prelude.{ℕ, ◌≡◌, ◌≤◌, ◌⊎◌, refl, true, [], ◌∷◌}
use gb_516_hydropower_gate_d.Failure.{Error, version_conflict, driver}
use gb_516_hydropower_gate_d.Orm.Memory.{memory}
use gb_516_hydropower_gate_d.Constants.{can_transition}
use gb_516_hydropower_gate_d.Constants.Edges.{Chain, stay, then_step, Chain-bounded}
use gb_516_hydropower_gate_d.Repository.{Db, Exec, gates}
use gb_516_hydropower_gate_d.Repository.Calls.Runs.{Fails}
use gb_516_hydropower_gate_d.Repository.Store.{update, overwrite}
use gb_516_hydropower_gate_d.Repository.Store.Lock.{stale_update-Fails}
use gb_516_hydropower_gate_d.Middleware.RateLimit.{increment_local, count_all}
use gb_516_hydropower_gate_d.Middleware.RateLimit.Counts.{increment_local-counts_calls}
use gb_516_hydropower_gate_d.Witness.Data.{platform, gate_of, database, succeeds, runs}

whole_life : Chain 4 "draft" "completed"
unfolding can_transition
whole_life = then_step {mid = "pending"} refl (
    then_step {mid = "approved"} refl
      (then_step {mid = "executing"} refl (then_step {mid = "completed"} refl (stay "completed"))))

Chain-bounded_example : 4 ≤ 4
Chain-bounded_example = Chain-bounded whole_life

abbrev before : Db
before = database "closed" "approved" "pending"

abbrev first_writer : Exec (Unit {0})
first_writer = update platform gates 1 1 (gate_of "moving" 2)

first-succeeds : succeeds (first_writer before).0 ≡ true
unfolding update overwrite memory
first-succeeds = refl

stale_update-Fails_example :
    (e : Error) × ((e ≡ version_conflict) ⊎ ((n : ℕ) × (e ≡ driver n)))
    × Fails
        (update platform gates 1 1 (gate_of "locked" 2))
        (first_writer before).1
        e
        (first_writer before).1
stale_update-Fails_example =
    stale_update-Fails platform gates 1 1 (gate_of "moving" 2) (gate_of "locked" 2)
      {before = before} refl (runs first_writer before first-succeeds)

increment_local-counts_calls_example :
    (increment_local 60000000005 "a"
      (count_all ((60000000001, "a") ∷ (60000000002, "b") ∷ []) [])).0
    ≡ 2
increment_local-counts_calls_example =
    increment_local-counts_calls 60000000005 "a" ((60000000001, "a") ∷ (60000000002, "b") ∷ []) []
      tt (refl, (refl, tt))
