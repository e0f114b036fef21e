-- ===== src/Service/GateMove/Fate.antt =====
-- Where a gate is found after a service has brought it to a state.
use gb_516_hydropower_gate_d.Prelude.{
  refl, ◌<◌, ◌^◌, ◌≡◌, String, Bool, true, nat_eq, string_eq, some, arith, ap, ◌∙◌, find?,
  find?_passes, rewrite,
}
use gb_516_hydropower_gate_d.Failure.{ok}
use gb_516_hydropower_gate_d.Model.{GateUnit}
use gb_516_hydropower_gate_d.Orm.{scoped}
use gb_516_hydropower_gate_d.Repository.{Platform, Db, Context, schema, gates}
use gb_516_hydropower_gate_d.Repository.Store.{has_code, overwrite, normal_code, get_by_code}
use gb_516_hydropower_gate_d.Repository.Store.Laws.{get_by_code_found}
use gb_516_hydropower_gate_d.Repository.Store.Lock.{find?-overwritten, has_code-IsKept}
use gb_516_hydropower_gate_d.Service.Common.{
  Caller, next_version, previous_version, previous_version-next_version,
}
use gb_516_hydropower_gate_d.Service.GateMove.{redirected, gate_version, IsGateMoved}

-- There is a live gate under the code, and the first of them, which a search finds, has the status.
abbrev pub GateIs : Platform → String → String → Db → Type 0
GateIs p code status db =
    (gate : GateUnit) × (find? (scoped (schema gates) (has_code gates (normal_code p code)))
        db.gates
      ≡ some gate)
    × (gate.status ≡ status)

gate_version_own :
    (q : GateUnit → Bool) (gate : GateUnit)
    → gate.version < 2 ^ 64
    → scoped (schema gates) q gate ≡ true
    → gate_version gate gate ≡ true
gate_version_own q gate small h =
    let back = previous_version-next_version gate.version small in ground (arith, h, back)

module _ (p : Platform) (code : String) (gate : GateUnit) (db db' : Db) where
  -- A gate that nobody writes is found as it was.
  pub unmoved-GateIs :
      get_by_code p gates code db ≡ ok gate → db'.gates ≡ db.gates → GateIs p code gate.status db'
  unmoved-GateIs found same = (
    gate,
    ap (λ gs. find? (scoped (schema gates) (has_code gates (normal_code p code))) gs) same
        ∙ get_by_code_found p gates code db found,
    refl,
  )

  -- A gate that was moved is found in its target.
  pub moved-GateIs :
      {ctx : Context} {who : Caller} {action reason target : String} {between : Db}
      → get_by_code p gates code db ≡ ok gate
      → gate.version < 2 ^ 64
      → between.gates ≡ db.gates
      → IsGateMoved ctx who action reason gate target between db'
      → GateIs p code target db'
  unfolding overwrite
  moved-GateIs {ctx = ctx} {target = target} {between = between} found small same moved =
      let q = has_code gates (normal_code p code) in
      let before = get_by_code_found p gates code db found in
      let after =
        find?-overwritten gates q gate.id (previous_version (next_version gate.version))
          (redirected ctx.now target gate) db.gates
          (has_code-IsKept gates (normal_code p code) (redirected ctx.now target gate)) before
          (gate_version_own q gate small
            (find?_passes (scoped (schema gates) q) db.gates before)) in
      let table =
        ap (λ (x : Db). x.gates) moved.left
        ∙ ap
            (λ gs.
              rewrite (gate_version gate) (overwrite gates (redirected ctx.now target gate)) gs)
            same in
      (
        redirected ctx.now target gate,
        ap (λ gs. find? (scoped (schema gates) q) gs) table ∙ after,
        refl,
      )
