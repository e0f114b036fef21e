-- ===== src/Service/Security/Laws.antt =====
-- What a successful `Audit` leaves.
use gb_516_hydropower_gate_d.Prelude.{ℕ, String, ◌||◌, ◌==◌, string_eq, inl, inr, Bool-cases, arith}
use gb_516_hydropower_gate_d.Repository.{Platform, Db, Context}
use gb_516_hydropower_gate_d.Repository.Calls.Runs.{Runs}
use gb_516_hydropower_gate_d.Repository.Security.Laws.{IsAudited, append_audit-Runs}
use gb_516_hydropower_gate_d.Service.Common.{Caller}
use gb_516_hydropower_gate_d.Service.Security.{audit_log, audit}

pub audit-Runs :
    (p : Platform) (ctx : Context) (who : Caller) (action entity_type : String) (entity_id : ℕ)
    (before after detail : String) {db db' : Db} {u : Unit {0}}
    → Runs (audit p ctx who action entity_type entity_id before after detail) db u db'
    → IsAudited ctx.now (audit_log ctx who action entity_type entity_id before after detail) db db'
unfolding audit
audit-Runs p ctx who action entity_type entity_id before after detail h =
    elim (Bool-cases (action == "" || entity_type == "")) [
      | inl missing ↦ absurd (let r = rw missing at h in ground (arith, r.run))
      | inr named ↦ append_audit-Runs p ctx _ (rw named at h)
    ]
