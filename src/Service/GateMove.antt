-- ===== src/Service/GateMove.antt =====
-- How the directive and the confirmation service bring a gate to the state that an operation asks
-- for: the gate as it is written, and what the write and its audit record leave.
pub mod Fate
use gb_516_hydropower_gate_d.Prelude.{
  ℕ, ◌≡◌, String, Bool, true, List, ◌++◌, [], ◌∷◌, ap, ◌∙◌, any, rewrite,
}
use gb_516_hydropower_gate_d.Model.{GateUnit}
use gb_516_hydropower_gate_d.Orm.{scoped}
use gb_516_hydropower_gate_d.Repository.{Platform, Db, Context, ◌>>=◌, ◌>>◌, schema, gates, audits}
use gb_516_hydropower_gate_d.Repository.Calls.Runs.{Runs, bind-Runs}
use gb_516_hydropower_gate_d.Repository.Store.{is_version, overwrite, update}
use gb_516_hydropower_gate_d.Repository.Store.Laws.{update-Runs}
use gb_516_hydropower_gate_d.Service.Common.{Caller, next_version, previous_version}
use gb_516_hydropower_gate_d.Service.Security.{audit_log, audit}
use gb_516_hydropower_gate_d.Service.Security.Laws.{audit-Runs}

abbrev pub redirected : ℕ → String → GateUnit → GateUnit
redirected now status gate = record gate {
  base = record gate.base {
    status = status;
    version = next_version gate.version;
    updated_at = now;
  };
}

-- The condition under which the gate is rewritten: it is there in the version that was read.
abbrev pub gate_version : GateUnit → GateUnit → Bool
gate_version gate =
    scoped (schema gates) (is_version gates gate.id (previous_version (next_version gate.version)))

pub record IsGateMoved (ctx : Context) (who : Caller) (action reason : String) (gate : GateUnit)
    (target : String) (db db' : Db) : Type 0 where
  pub key : ℕ
  pub version : any (gate_version gate) db.gates ≡ true
  pub left : db' ≡ record db {
    gates = rewrite (gate_version gate) (overwrite gates (redirected ctx.now target gate)) db.gates;
    audits =
        db.audits
        ++ audits.stamp key ctx.now
            (audit_log ctx who action "GateUnit" gate.id gate.status target reason)
          ∷ [];
  }

pub move-Runs :
    (p : Platform) (ctx : Context) (who : Caller) (action reason : String) (gate : GateUnit)
    (target : String) {db db' : Db} {u : Unit {0}}
    → Runs
        (update p gates gate.id
            (previous_version (next_version gate.version))
            (redirected ctx.now target gate)
          >> audit p ctx who action "GateUnit" gate.id gate.status target reason)
        db
        u
        db'
    → IsGateMoved ctx who action reason gate target db db'
move-Runs p ctx who action reason gate target {db} h =
    let (_, db₁, r₁, r₂) = bind-Runs h in
    let (version, updated) = update-Runs p gates gate.id _ (redirected ctx.now target gate) r₁ in
    let logged = audit-Runs p ctx who action "GateUnit" gate.id gate.status target reason r₂ in
    record {
      key = logged.key;
      version = version;
      left =
          logged.appended
          ∙ ap
              (λ (x : Db). record x {
                audits =
                    x.audits
                    ++ audits.stamp logged.key ctx.now
                        (audit_log ctx who action "GateUnit" gate.id gate.status target reason)
                      ∷ [];
              })
              updated;
    }
