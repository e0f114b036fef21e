-- ===== src/System/Directives.antt =====
-- The directive service keeps what is `Preserved`.
use gb_516_hydropower_gate_d.Prelude.{
  ℕ, ◌≡◌, String, true, not, ◌!=◌, ◌==◌, ◌&&◌, ◌||◌, string_eq, Option, none, some, arith, eq_iff,
  subst, sym, find?_passes, nat_eq,
}
use gb_516_hydropower_gate_d.Text.{trim_space, equal_fold}
use gb_516_hydropower_gate_d.Failure.{ok}
use gb_516_hydropower_gate_d.Constants.{can_transition, operation_directive_transitions}
use gb_516_hydropower_gate_d.Model.{OperationDirective}
use gb_516_hydropower_gate_d.Dto.{
  TransitionRequest, CreateOperationDirective, UpdateOperationDirective,
}
use gb_516_hydropower_gate_d.Repository.{Platform, Db, Context, schema, directives, gates}
use gb_516_hydropower_gate_d.Orm.{scoped}
use gb_516_hydropower_gate_d.Repository.Calls.Keeps.{
  Keeps, Keeps-pure, Keeps-ask, Keeps-if, Keeps-bind, Keeps-check, Keeps-read, Keeps-after,
  Keeps-within,
}
use gb_516_hydropower_gate_d.Repository.Store
use gb_516_hydropower_gate_d.Repository.Directives
use gb_516_hydropower_gate_d.Repository.Directives.Keeps.{
  get_finds, has_id-eq, Keeps-transition_with_approval,
}
use gb_516_hydropower_gate_d.Service.Common.{Caller}
use gb_516_hydropower_gate_d.Service.Directive.{
  Link, edited, advanced, move_gate, record_transition, create, update, transition, delete,
}
use gb_516_hydropower_gate_d.System.Preserved.{Preserved, IsSecondPerson}
use gb_516_hydropower_gate_d.Service.Directive.Admit.{admit-Runs}
use gb_516_hydropower_gate_d.Service.Directive.Reads.{Keeps-admit}
use gb_516_hydropower_gate_d.System.Audit.{Keeps-audit}

is_draft : (s : String) → not (s != "draft") ≡ true → s ≡ "draft"
is_draft s h = ground (arith, eq_iff s "draft")

second_person :
    (p : Platform) (d : OperationDirective) (who : Caller) (target : String)
    → not (
        target == "approved"
        && (d.submitted_by == "" || equal_fold p.unicode d.submitted_by who.actor))
      ≡ true
    → target ≡ "approved"
    → IsSecondPerson p d who
second_person p d who target h e = ground (arith, eq_iff target "approved")

-- The rows that an update of an id can hit have the id of what is written.
pub same_id :
    (id v written : ℕ)
    → written ≡ id
    → (row : OperationDirective)
    → scoped (schema directives) (Store.is_version directives id v) row ≡ true
    → row.id ≡ written
same_id id v written e row h = ground (arith, e, h)

module _ {p : Platform} {P : Db → Type 0} {Q : OperationDirective → Type 0} {N : Caller → Type 0}
    (k : Preserved p P Q N) where
  -- A directive that was read under its id.
  abbrev IsRead : ℕ → OperationDirective → Type 0
  IsRead id d = Q d × (d.id ≡ id)

  IsRead-directive :
      (id : ℕ) (db : Db) (d : OperationDirective)
      → P db
      → Directives.get p id db ≡ ok d
      → IsRead id d
  IsRead-directive id db d h e =
      let (row, xs, found, same) = get_finds p id db e in
      subst (IsRead id) (sym same) (
        k.read db _ row xs h found,
        has_id-eq row id (
            find?_passes (scoped (schema directives) (Store.has_id directives id)) db.directives
              found),
      )

  module _ (ctx : Context) where
    Keeps-move_gate :
        (input : TransitionRequest) (who : Caller) (link : Option Link)
        → Keeps P (move_gate p ctx input who link)
    unfolding move_gate
    Keeps-move_gate input who none = Keeps-pure P tt
    Keeps-move_gate input who (some link) = Keeps-if P _ _ _ (Keeps-pure P tt) (
        Keeps-bind P _ _
          (Store.Keeps.Keeps-update P p gates link.gate.id _ _ (λ db h. k.gates db _ h))
          λ _. Keeps-audit k ctx who _ _ _ _ _ _)

    pub Keeps-create :
        (input : CreateOperationDirective) (who : Caller) → Keeps P (create p ctx input who)
    unfolding create
    Keeps-create input who = Keeps-bind P _ _ (Keeps-ask P _) λ _.
        Keeps-bind P _ _ (Keeps-ask P _) λ gate. Keeps-check P _ _ _ λ _.
          Keeps-within P p ctx _ λ tx.
            Keeps-bind P _ _
              (Store.Keeps.Keeps-create P p directives tx _
                (λ db n fresh apart h. k.insert db n tx.now input fresh h))
              λ item. Keeps-bind P _ _ (Keeps-audit k tx who _ _ _ _ _ _) λ _. Keeps-pure P item

    pub Keeps-update :
        (id : ℕ) (input : UpdateOperationDirective) (who : Caller)
        → Keeps P (update p ctx id input who)
    unfolding update
    Keeps-update id input who = Keeps-read P (IsRead id) _ _ (IsRead-directive id) λ current good.
        Keeps-check P _ _ _ λ draft. Keeps-bind P _ _ (Keeps-ask P _) λ _.
          Keeps-bind P _ _ (Keeps-ask P _) λ gate. Keeps-check P _ _ _ λ _.
            Keeps-bind P _ _
              (Keeps-within P p ctx _ λ tx.
                Keeps-bind P _ _
                  (Store.Keeps.Keeps-update P p directives id _ _ (λ db h.
                    k.write db _ (edited p ctx input current)
                      (same_id id input.expected_version current.id good.1)
                      (k.edits ctx input current good.0 (is_draft _ draft)) h))
                  λ _. Keeps-audit k tx who _ _ _ _ _ _)
              λ _. Keeps-ask P _

    pub Keeps-record_transition :
        (id : ℕ) (input : TransitionRequest) (who : Caller) (current : OperationDirective)
        (link : Option Link)
        → N who
        → IsRead id current
        → can_transition operation_directive_transitions current.status (trim_space input.status)
          ≡ true
        → (trim_space input.status ≡ "approved" → IsSecondPerson p current who)
        → Keeps P (record_transition p ctx id input who current link)
    unfolding record_transition
    Keeps-record_transition id input who current link named good edge second =
        Keeps-within P p ctx _ λ tx.
          Keeps-bind P _ _
            (Keeps-transition_with_approval P p tx id _ _ _ _
              (Store.Keeps.Keeps-update P p directives id _ _ (λ db h.
                k.write db _ (advanced ctx input who (trim_space input.status) current)
                  (same_id id input.expected_version current.id good.1)
                  (k.advances ctx input who _ current named good.0 edge second) h))
              (λ db row h. k.approvals db row h)
              (Store.Keeps.Keeps-append_audit P p tx _ (λ db row h. k.audits db row h)))
            λ _. Keeps-move_gate_in tx
      where
        Keeps-move_gate_in : (tx : Context) → Keeps P (move_gate p ctx input who link)
        Keeps-move_gate_in tx = Keeps-move_gate input who link

    pub Keeps-delete : (id : ℕ) (who : Caller) → Keeps P (delete p ctx id who)
    unfolding delete
    Keeps-delete id who = Keeps-bind P _ _ (Keeps-ask P _) λ current. Keeps-check P _ _ _ λ draft.
        Keeps-within P p ctx _ λ tx.
          Keeps-bind P _ _
            (Store.Keeps.Keeps-delete P p directives tx id (λ db h. k.remove db _ tx.now h))
            λ _. Keeps-audit k tx who _ _ _ _ _ _

    pub Keeps-transition :
        (id : ℕ) (input : TransitionRequest) (who : Caller)
        → N who
        → Keeps P (transition p ctx id input who)
    unfolding transition
    Keeps-transition id input who named =
        Keeps-after P (λ x. Admitted x.0) _ _ (Keeps-admit p P ctx id input who)
          (λ db db' x h run.
            let (a, _) = admit-Runs p ctx id input who run in
            (
              IsRead-directive id db x.0 h a.found,
              a.edge,
              second_person p x.0 who (trim_space input.status) a.second_person,
            ))
          λ x good.
            Keeps-bind P _ _
              (Keeps-record_transition id input who x.0 x.1 named good.0 good.1 good.2)
              λ _. Keeps-ask P _
      where
        Admitted : OperationDirective → Type 0
        Admitted d =
            IsRead id d
            × (can_transition operation_directive_transitions d.status (trim_space input.status)
                ≡ true)
            × (trim_space input.status ≡ "approved" → IsSecondPerson p d who)
