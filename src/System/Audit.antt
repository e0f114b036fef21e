-- ===== src/System/Audit.antt =====
-- The audit trail and the status changes with an audit keep what is `Preserved`.
use gb_516_hydropower_gate_d.Prelude.{ℕ, String, ◌||◌, ◌==◌, string_eq}
use gb_516_hydropower_gate_d.Model.{OperationDirective, AuditLog}
use gb_516_hydropower_gate_d.Repository.{Platform, Db, Context, Aggregate}
use gb_516_hydropower_gate_d.Repository.Calls.Keeps.{Keeps, Keeps-if, Keeps-bind, Keeps-transaction}
use gb_516_hydropower_gate_d.Repository.Store.{transition_with_audit, update}
use gb_516_hydropower_gate_d.Repository.Store.Keeps.{Keeps-append_audit}
use gb_516_hydropower_gate_d.Service.Common.{Caller}
use gb_516_hydropower_gate_d.Service.Security.{audit}
use gb_516_hydropower_gate_d.System.Preserved.{Preserved}

module _ {p : Platform} {P : Db → Type 0} {Q : OperationDirective → Type 0} {N : Caller → Type 0}
    (k : Preserved p P Q N) where
  pub Keeps-audit :
      (ctx : Context) (who : Caller) (action entity_type : String) (entity_id : ℕ)
      (before after detail : String)
      → Keeps P (audit p ctx who action entity_type entity_id before after detail)
  unfolding audit
  Keeps-audit ctx who action entity_type entity_id before after detail =
      Keeps-if P (action == "" || entity_type == "") _ _ (record { at = λ db h. h })
        (Keeps-append_audit P p ctx _ (λ db row h. k.audits db row h))

  pub Keeps-transition_with_audit :
      {T : Type 0} (a : Aggregate T) (ctx : Context) (id v : ℕ) (item : T) (log : AuditLog)
      → Keeps P (update p a id v item)
      → Keeps P (transition_with_audit p a ctx id v item log)
  unfolding transition_with_audit
  Keeps-transition_with_audit a ctx id v item log updates = Keeps-transaction P p _ (
      Keeps-bind P _ _ updates
        (λ _. Keeps-append_audit P p ctx log (λ db row h. k.audits db row h)))
