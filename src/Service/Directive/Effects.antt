-- ===== src/Service/Directive/Effects.antt =====
-- What a successful `Transition` of a directive means: who may have made it and from which state,
-- what it has written, and what became of the gate.
use gb_516_hydropower_gate_d.Prelude.{
  ℕ, ◌≡◌, ◌≢◌, String, Bool, true, false, not, ◌==◌, ◌&&◌, ◌||◌, string_eq, Option, List, ◌++◌, [],
  ◌∷◌, arith, eq_iff, ap, sym, subst, ◌∙◌, any, rewrite, Extends, Extends-refl,
}
use gb_516_hydropower_gate_d.Text.{trim_space, equal_fold}
use gb_516_hydropower_gate_d.Failure.{Result, ok}
use gb_516_hydropower_gate_d.Constants.Edges.{DirectiveStep, step_taken}
use gb_516_hydropower_gate_d.Model.{OperationDirective, DirectiveApproval, AuditLog}
use gb_516_hydropower_gate_d.Dto.{TransitionRequest}
use gb_516_hydropower_gate_d.Orm.{scoped}
use gb_516_hydropower_gate_d.Repository.{Platform, Db, Context, schema, directives}
use gb_516_hydropower_gate_d.Repository.Calls.Runs.{Runs}
use gb_516_hydropower_gate_d.Repository.Store.{is_version, overwrite}
use gb_516_hydropower_gate_d.Repository.Directives
use gb_516_hydropower_gate_d.Service.Common.{Caller}
use gb_516_hydropower_gate_d.Service.Directive.Defs.{
  Link, advanced, transition, directive_role_allowed,
}
use gb_516_hydropower_gate_d.Service.Directive.Written.{
  IsAdvanced, IsSignedOff, IsLogged, advanced-IsAdvanced, transition_log-IsLogged,
  filed-IsSignedOff,
}
use gb_516_hydropower_gate_d.Service.Directive.Admit.{IsAdmitted}
use gb_516_hydropower_gate_d.Service.Directive.Commit.{
  IsLinkMoved, no_link, in_place, to_target, IsCommitted, transition-Runs,
}

ok-inj : {x y : OperationDirective} → ◌≡◌ {A = Result OperationDirective} (ok x) (ok y) → x ≡ y
ok-inj h = ground arith

not_completed : (s : String) → not (s == "completed") ≡ true → s ≢ "completed"
not_completed s h e = ground (arith, eq_iff s "completed")

second_person :
    (target submitter : String) (same : Bool)
    → not (target == "approved" && (submitter == "" || same)) ≡ true
    → target ≡ "approved"
    → (submitter ≢ "") × (same ≡ false)
second_person target submitter same h e = (
  ground (arith, eq_iff target "approved", eq_iff submitter ""),
  ground (arith, eq_iff target "approved"),
)

frame_same :
    {db db' : Db}
    → db' ≡ db
    → ((db'.directives ≡ db.directives)
        × (db'.approvals ≡ db.approvals)
        × (db'.reservoirs ≡ db.reservoirs)
        × (db'.confirmations ≡ db.confirmations))
      × Extends db.audits db'.audits
frame_same {db = db} {db' = db'} same = (
  (
    ap (λ (x : Db). x.directives) same,
    ap (λ (x : Db). x.approvals) same,
    ap (λ (x : Db). x.reservoirs) same,
    ap (λ (x : Db). x.confirmations) same,
  ),
  subst (λ (x : Db). Extends x.audits db'.audits) same (Extends-refl db'.audits),
)

-- The step of the gate leaves the other tables alone, and only adds to the audit log.
link-frame :
    {ctx : Context} {who : Caller} {reason : String} {link : Option Link} {db db' : Db}
    → IsLinkMoved ctx who reason link db db'
    → ((db'.directives ≡ db.directives)
        × (db'.approvals ≡ db.approvals)
        × (db'.reservoirs ≡ db.reservoirs)
        × (db'.confirmations ≡ db.confirmations))
      × Extends db.audits db'.audits
link-frame (no_link e same) = frame_same same
link-frame (in_place l e idle same) = frame_same same
link-frame (to_target l e busy moved) =
    let left = moved.left in
    (
      (
        ap (λ (x : Db). x.directives) left,
        ap (λ (x : Db). x.approvals) left,
        ap (λ (x : Db). x.reservoirs) left,
        ap (λ (x : Db). x.confirmations) left,
      ),
      (_, ap (λ (x : Db). x.audits) left),
    )

module _ (p : Platform) (ctx : Context) (id : ℕ) (input : TransitionRequest) (who : Caller) where
  -- The parts of a successful transition, for the directive that was read.
  abbrev pub IsDone : OperationDirective → Option Link → Db → Db → Type 0
  IsDone d link db db' =
      IsAdmitted p db id input who d link × IsCommitted p ctx id input who d link db db'

  pub transition-IsDone :
      {d item : OperationDirective} {db db' : Db}
      → Directives.get p id db ≡ ok d
      → Runs (transition p ctx id input who) db item db'
      → (link : Option Link) × IsDone d link db db'
  transition-IsDone {d = d} {db = db} {db' = db'} found h =
      let done = transition-Runs p ctx id input who h in
      (
        done.link,
        subst (λ x. IsDone x done.link db db') (ok-inj (sym done.admitted.found ∙ found))
            (done.admitted, done.committed),
      )

  -- A transition of a directive succeeds only along a step of its life other than completion, for
  -- a role that the step is open to; and an approval only when the directive has a submitter, who
  -- is another user than the caller under case folding.
  pub transition-admitted :
      {d item : OperationDirective} {db db' : Db}
      → Directives.get p id db ≡ ok d
      → Runs (transition p ctx id input who) db item db'
      → DirectiveStep d.status (trim_space input.status)
        × (trim_space input.status ≢ "completed")
        × (directive_role_allowed (trim_space input.status) who.role ≡ true)
        × (trim_space input.status ≡ "approved"
            → (d.submitted_by ≢ "") × (equal_fold p.unicode d.submitted_by who.actor ≡ false))
  transition-admitted found h =
      let (link, (admitted, committed)) = transition-IsDone found h in
      (
        step_taken _ _ admitted.edge,
        not_completed _ admitted.unfinished,
        admitted.role,
        second_person _ _ _ admitted.second_person,
      )

  -- A successful transition overwrites the live rows of the directive in the expected version, of
  -- which there is at least one, by the directive in the new status and the next version, with the
  -- caller as the submitter of a submission or the approver of an approval and all other fields as
  -- they were; it files one approval, signed by the caller, for a submission or an approval and none
  -- for other steps; it appends a record of the step from the old to the new status to the audit
  -- log; and it leaves the reservoirs and the confirmations alone.
  pub transition-recorded :
      {d item : OperationDirective} {db db' : Db}
      → Directives.get p id db ≡ ok d
      → Runs (transition p ctx id input who) db item db'
      → (any
            (scoped (schema directives) (is_version directives id input.expected_version))
            db.directives
          ≡ true)
        × ((written : OperationDirective) × IsAdvanced ctx input who d written
            × (db'.directives
                ≡ rewrite
                    (scoped (schema directives) (is_version directives id input.expected_version))
                    (overwrite directives written)
                    db.directives))
        × ((filed : List DirectiveApproval) × IsSignedOff ctx input who id d.status filed
            × (db'.approvals ≡ db.approvals ++ filed))
        × ((entry : AuditLog) × IsLogged ctx input who id d.status entry
            × Extends (db.audits ++ entry ∷ []) db'.audits)
        × (db'.reservoirs ≡ db.reservoirs)
        × (db'.confirmations ≡ db.confirmations)
  transition-recorded {d = d} {db = db} {db' = db'} found h =
      let (link, (admitted, committed)) = transition-IsDone found h in
      let r = committed.recorded in
      let (tables, logged) = link-frame committed.moved in
      (
        r.version,
        (
          advanced ctx input who (trim_space input.status) d,
          advanced-IsAdvanced ctx input who d,
          tables.0 ∙ ap (λ (x : Db). x.directives) r.left,
        ),
        (
          r.filed,
          filed-IsSignedOff ctx input who id d.status r.filed r.filed_one,
          tables.1 ∙ ap (λ (x : Db). x.approvals) r.left,
        ),
        (
          _,
          transition_log-IsLogged ctx input who id r.key d.status,
          subst (λ xs. Extends xs db'.audits) (ap (λ (x : Db). x.audits) r.left) logged,
        ),
        tables.2 ∙ ap (λ (x : Db). x.reservoirs) r.left,
        tables.3 ∙ ap (λ (x : Db). x.confirmations) r.left,
      )
