-- ===== src/System/Atomicity.antt =====
-- A request that fails has changed nothing, unless all that failed is the read of the record for
-- the response, after the commit.
use gb_516_hydropower_gate_d.Prelude.{ℕ, ◌≡◌, ◌⊎◌, false, arith}
use gb_516_hydropower_gate_d.Failure.{Error, Result, ok, err}
use gb_516_hydropower_gate_d.Dto.{
  TransitionRequest, CreateReservoir, UpdateReservoir, CreateGateUnit, UpdateGateUnit,
  CreateOperationDirective, UpdateOperationDirective, CreateExecutionConfirmation,
  UpdateExecutionConfirmation,
}
use gb_516_hydropower_gate_d.Repository.{
  Platform, Db, Context, Exec, reservoirs, gates, confirmations,
}
use gb_516_hydropower_gate_d.Repository.Calls.Runs.{Fails}
use gb_516_hydropower_gate_d.Repository.Calls.Keeps.{Keeps-ask}
use gb_516_hydropower_gate_d.Repository.Calls.Atomic.{
  Atomic, Never, Atomic-read, Atomic-then, Atomic-check, Atomic-within, Atomic-transaction,
  ask-Fails,
}
use gb_516_hydropower_gate_d.Repository.Store
use gb_516_hydropower_gate_d.Repository.Store.{transition_with_audit}
use gb_516_hydropower_gate_d.Repository.Directives
use gb_516_hydropower_gate_d.Service.Common.{Caller}
use gb_516_hydropower_gate_d.Service.Reservoir
use gb_516_hydropower_gate_d.Service.Gate
use gb_516_hydropower_gate_d.Service.Directive
use gb_516_hydropower_gate_d.Service.Directive.Reads as DirectiveReads
use gb_516_hydropower_gate_d.Service.Confirmation
use gb_516_hydropower_gate_d.Service.Confirmation.Reads as ConfirmationReads
use gb_516_hydropower_gate_d.System.Requests.{
  Request, create_reservoir, update_reservoir, move_reservoir, delete_reservoir, create_gate,
  update_gate, move_gate, delete_gate, create_directive, update_directive, move_directive,
  delete_directive, create_confirmation, update_confirmation, move_confirmation,
  delete_confirmation, forget, discard, call,
}

-- The read for the response of an update or a transition fails with `e`.
abbrev pub RereadFails : Platform → Request → Error → Db → Type 0
RereadFails p (create_reservoir input) e db = ⊥
RereadFails p (update_reservoir id input) e db = Store.get p reservoirs id db ≡ err e
RereadFails p (move_reservoir id input) e db = Store.get p reservoirs id db ≡ err e
RereadFails p (delete_reservoir id) e db = ⊥
RereadFails p (create_gate input) e db = ⊥
RereadFails p (update_gate id input) e db = Store.get p gates id db ≡ err e
RereadFails p (move_gate id input) e db = Store.get p gates id db ≡ err e
RereadFails p (delete_gate id) e db = ⊥
RereadFails p (create_directive input) e db = ⊥
RereadFails p (update_directive id input) e db = Directives.get p id db ≡ err e
RereadFails p (move_directive id input) e db = Directives.get p id db ≡ err e
RereadFails p (delete_directive id) e db = ⊥
RereadFails p (create_confirmation input) e db = ⊥
RereadFails p (update_confirmation id input) e db = Store.get p confirmations id db ≡ err e
RereadFails p (move_confirmation id input) e db = Store.get p confirmations id db ≡ err e
RereadFails p (delete_confirmation id) e db = ⊥

forget-eq-err : {A : Type 0} (r : Result A) {e : Error} → forget r ≡ err e → r ≡ err e
forget-eq-err (ok a) h = cc
forget-eq-err (err x) h = ground arith

Atomic-discard :
    {A : Type 0} (R : Error → Db → Type 0) (m : Exec A) → Atomic R m → Atomic R (discard m)
Atomic-discard R m am = record {
  at = λ db e db' h.
      am.at db e db'
        (record { run = λ i. (forget-eq-err (m db).0 (λ j. (h.run j).0) i, (h.run i).1) });
}

module _ (p : Platform) (ctx : Context) (who : Caller) (outer : ctx.in_transaction ≡ false) where
  create_reservoir-Atomic :
      (input : CreateReservoir) (R : Error → Db → Type 0)
      → Atomic R (Reservoir.create p ctx input who)
  unfolding Reservoir.create
  create_reservoir-Atomic input R =
      Atomic-read R _ _ (λ P. Keeps-ask P _) (λ _. Atomic-within R p ctx _ outer)

  update_reservoir-Atomic :
      (id : ℕ) (input : UpdateReservoir)
      → Atomic (λ e db. Store.get p reservoirs id db ≡ err e) (Reservoir.update p ctx id input who)
  unfolding Reservoir.update
  update_reservoir-Atomic id input =
      Atomic-read _ _ _ (λ P. Keeps-ask P _)
        (λ _.
          Atomic-read _ _ _ (λ P. Keeps-ask P _)
            (λ _.
              Atomic-then _ _ _ (Atomic-within Never p ctx _ outer)
                (λ _. ask-Fails (Store.get p reservoirs id))))

  move_reservoir-Atomic :
      (id : ℕ) (input : TransitionRequest)
      → Atomic
          (λ e db. Store.get p reservoirs id db ≡ err e)
          (Reservoir.transition p ctx id input who)
  unfolding Reservoir.transition transition_with_audit
  move_reservoir-Atomic id input =
      Atomic-read _ _ _ (λ P. Keeps-ask P _)
        (λ _. Atomic-check _ _ _ _ (
          Atomic-then _ _ _ (Atomic-transaction Never p _)
            (λ _. ask-Fails (Store.get p reservoirs id))))

  delete_reservoir-Atomic :
      (id : ℕ) (R : Error → Db → Type 0) → Atomic R (Reservoir.delete p ctx id who)
  unfolding Reservoir.delete
  delete_reservoir-Atomic id R =
      Atomic-read R _ _ (λ P. Keeps-ask P _) (λ _. Atomic-within R p ctx _ outer)

  create_gate-Atomic :
      (input : CreateGateUnit) (R : Error → Db → Type 0) → Atomic R (Gate.create p ctx input who)
  unfolding Gate.create
  create_gate-Atomic input R =
      Atomic-read R _ _ (λ P. Keeps-ask P _)
        (λ _.
          Atomic-read R _ _ (λ P. Keeps-ask P _)
            (λ _. Atomic-check R _ _ _ (Atomic-within R p ctx _ outer)))

  update_gate-Atomic :
      (id : ℕ) (input : UpdateGateUnit)
      → Atomic (λ e db. Store.get p gates id db ≡ err e) (Gate.update p ctx id input who)
  unfolding Gate.update
  update_gate-Atomic id input =
      Atomic-read _ _ _ (λ P. Keeps-ask P _)
        (λ _.
          Atomic-read _ _ _ (λ P. Keeps-ask P _)
            (λ _. Atomic-check _ _ _ _ (
              Atomic-read _ _ _ (λ P. Keeps-ask P _)
                (λ _. Atomic-check _ _ _ _ (
                  Atomic-then _ _ _ (Atomic-within Never p ctx _ outer)
                    (λ _. ask-Fails (Store.get p gates id)))))))

  move_gate-Atomic :
      (id : ℕ) (input : TransitionRequest)
      → Atomic (λ e db. Store.get p gates id db ≡ err e) (Gate.transition p ctx id input who)
  unfolding Gate.transition transition_with_audit
  move_gate-Atomic id input =
      Atomic-read _ _ _ (λ P. Keeps-ask P _)
        (λ _. Atomic-check _ _ _ _ (
          Atomic-then _ _ _ (Atomic-transaction Never p _) (λ _. ask-Fails (Store.get p gates id))))

  delete_gate-Atomic : (id : ℕ) (R : Error → Db → Type 0) → Atomic R (Gate.delete p ctx id who)
  unfolding Gate.delete
  delete_gate-Atomic id R =
      Atomic-read R _ _ (λ P. Keeps-ask P _) (λ _. Atomic-within R p ctx _ outer)

  create_directive-Atomic :
      (input : CreateOperationDirective) (R : Error → Db → Type 0)
      → Atomic R (Directive.create p ctx input who)
  unfolding Directive.create
  create_directive-Atomic input R =
      Atomic-read R _ _ (λ P. Keeps-ask P _)
        (λ _.
          Atomic-read R _ _ (λ P. Keeps-ask P _)
            (λ _. Atomic-check R _ _ _ (Atomic-within R p ctx _ outer)))

  update_directive-Atomic :
      (id : ℕ) (input : UpdateOperationDirective)
      → Atomic (λ e db. Directives.get p id db ≡ err e) (Directive.update p ctx id input who)
  unfolding Directive.update
  update_directive-Atomic id input =
      Atomic-read _ _ _ (λ P. Keeps-ask P _)
        (λ _. Atomic-check _ _ _ _ (
          Atomic-read _ _ _ (λ P. Keeps-ask P _)
            (λ _.
              Atomic-read _ _ _ (λ P. Keeps-ask P _)
                (λ _. Atomic-check _ _ _ _ (
                  Atomic-then _ _ _ (Atomic-within Never p ctx _ outer)
                    (λ _. ask-Fails (Directives.get p id)))))))

  move_directive-Atomic :
      (id : ℕ) (input : TransitionRequest)
      → Atomic (λ e db. Directives.get p id db ≡ err e) (Directive.transition p ctx id input who)
  unfolding Directive.transition Directive.record_transition
  move_directive-Atomic id input =
      Atomic-read _ _ _ (λ P. DirectiveReads.Keeps-admit p P ctx id input who)
        (λ _.
          Atomic-then _ _ _ (Atomic-within Never p ctx _ outer)
            (λ _. ask-Fails (Directives.get p id)))

  delete_directive-Atomic :
      (id : ℕ) (R : Error → Db → Type 0) → Atomic R (Directive.delete p ctx id who)
  unfolding Directive.delete
  delete_directive-Atomic id R =
      Atomic-read R _ _ (λ P. Keeps-ask P _)
        (λ _. Atomic-check R _ _ _ (Atomic-within R p ctx _ outer))

  create_confirmation-Atomic :
      (input : CreateExecutionConfirmation) (R : Error → Db → Type 0)
      → Atomic R (Confirmation.create p ctx input who)
  unfolding Confirmation.create
  create_confirmation-Atomic input R =
      Atomic-read R _ _ (λ P. Keeps-ask P _)
        (λ _.
          Atomic-read R _ _ (λ P. ConfirmationReads.Keeps-require p P _)
            (λ _.
              Atomic-read R _ _ (λ P. Keeps-ask P _)
                (λ _. Atomic-check R _ _ _ (Atomic-within R p ctx _ outer))))

  update_confirmation-Atomic :
      (id : ℕ) (input : UpdateExecutionConfirmation)
      → Atomic
          (λ e db. Store.get p confirmations id db ≡ err e)
          (Confirmation.update p ctx id input who)
  unfolding Confirmation.update
  update_confirmation-Atomic id input =
      Atomic-read _ _ _ (λ P. Keeps-ask P _)
        (λ _.
          Atomic-read _ _ _ (λ P. Keeps-ask P _)
            (λ _. Atomic-check _ _ _ _ (
              Atomic-check _ _ _ _ (
                Atomic-read _ _ _ (λ P. ConfirmationReads.Keeps-require p P _)
                  (λ _.
                    Atomic-then _ _ _ (Atomic-within Never p ctx _ outer)
                      (λ _. ask-Fails (Store.get p confirmations id)))))))

  move_confirmation-Atomic :
      (id : ℕ) (input : TransitionRequest)
      → Atomic
          (λ e db. Store.get p confirmations id db ≡ err e)
          (Confirmation.transition p ctx id input who)
  unfolding Confirmation.transition Confirmation.record_transition
  move_confirmation-Atomic id input =
      Atomic-read _ _ _ (λ P. ConfirmationReads.Keeps-admit p P ctx id input)
        (λ _.
          Atomic-then _ _ _ (Atomic-within Never p ctx _ outer)
            (λ _. ask-Fails (Store.get p confirmations id)))

  delete_confirmation-Atomic :
      (id : ℕ) (R : Error → Db → Type 0) → Atomic R (Confirmation.delete p ctx id who)
  unfolding Confirmation.delete
  delete_confirmation-Atomic id R =
      Atomic-read R _ _ (λ P. Keeps-ask P _)
        (λ _. Atomic-check R _ _ _ (Atomic-within R p ctx _ outer))

  call-Atomic : (request : Request) → Atomic (RereadFails p request) (call p ctx who request)
  unfolding call
  call-Atomic (create_reservoir input) = Atomic-discard _ _ (create_reservoir-Atomic input _)
  call-Atomic (update_reservoir id input) = Atomic-discard _ _ (update_reservoir-Atomic id input)
  call-Atomic (move_reservoir id input) = Atomic-discard _ _ (move_reservoir-Atomic id input)
  call-Atomic (delete_reservoir id) = delete_reservoir-Atomic id _
  call-Atomic (create_gate input) = Atomic-discard _ _ (create_gate-Atomic input _)
  call-Atomic (update_gate id input) = Atomic-discard _ _ (update_gate-Atomic id input)
  call-Atomic (move_gate id input) = Atomic-discard _ _ (move_gate-Atomic id input)
  call-Atomic (delete_gate id) = delete_gate-Atomic id _
  call-Atomic (create_directive input) = Atomic-discard _ _ (create_directive-Atomic input _)
  call-Atomic (update_directive id input) = Atomic-discard _ _ (update_directive-Atomic id input)
  call-Atomic (move_directive id input) = Atomic-discard _ _ (move_directive-Atomic id input)
  call-Atomic (delete_directive id) = delete_directive-Atomic id _
  call-Atomic (create_confirmation input) = Atomic-discard _ _ (create_confirmation-Atomic input _)
  call-Atomic (update_confirmation id input) =
      Atomic-discard _ _ (update_confirmation-Atomic id input)
  call-Atomic (move_confirmation id input) = Atomic-discard _ _ (move_confirmation-Atomic id input)
  call-Atomic (delete_confirmation id) = delete_confirmation-Atomic id _

  -- A request that is not already in a transaction and fails leaves the database as it found it:
  -- no status, approval or audit entry is written without the others. The one exception is an
  -- update or a transition whose writes were committed and whose read of the record for the
  -- response then failed with that error.
  pub failed_call_unchanged :
      (request : Request) {db db' : Db} {e : Error}
      → Fails (call p ctx who request) db e db'
      → (db' ≡ db) ⊎ RereadFails p request e db'
  failed_call_unchanged request {db} {db'} {e} h = (call-Atomic request).at db e db' h
