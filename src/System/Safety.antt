-- ===== src/System/Safety.antt =====
-- Invariants that hold whatever requests are served, in any order, with any faults of the database.
use gb_516_hydropower_gate_d.Prelude.{
  ◌≡◌, refl, ◌⊎◌, inl, inr, String, true, false, List, [], ◌∷◌, ◌==◌, string_eq, arith, eq_iff, All,
  All-append, All-find, All-rewrite, Extends, Extends-refl, Extends-append,
}
use gb_516_hydropower_gate_d.Text.{Unicode, equal_fold}
use gb_516_hydropower_gate_d.Constants.{can_transition, operation_directive_transitions}
use gb_516_hydropower_gate_d.Constants.Edges.{before_executing, before_completed}
use gb_516_hydropower_gate_d.Dto.{TransitionRequest}
use gb_516_hydropower_gate_d.Service.Directive.{advanced}
use gb_516_hydropower_gate_d.Model.{OperationDirective}
use gb_516_hydropower_gate_d.Repository.{Platform, Db, Context}
use gb_516_hydropower_gate_d.Repository.Store.{overwrite}
use gb_516_hydropower_gate_d.Service.Common.{Caller}
use gb_516_hydropower_gate_d.System.Preserved.{Preserved, IsSecondPerson}
use gb_516_hydropower_gate_d.System.Requests.{Request, serve, serve-Preserved, all_callers}

-- The directive was approved, and may have gone on from there.
abbrev pub IsReleased : String → Type 0
IsReleased status = (status ≡ "approved") ⊎ (status ≡ "executing") ⊎ (status ≡ "completed")

-- A released directive has a submitter and an approver, who are two users.
abbrev pub IsTwoPerson : Unicode → OperationDirective → Type 0
IsTwoPerson u d =
    IsReleased d.status
    → ((d.submitted_by == "") ≡ false)
      × ((d.approved_by == "") ≡ false)
      × (equal_fold u d.submitted_by d.approved_by ≡ false)

abbrev pub IsNamed : Caller → Type 0
IsNamed who = (who.actor == "") ≡ false

abbrev pub AllNamed : List (Context × Caller × Request) → Type 0
AllNamed requests = All (λ (r : Context × Caller × Request). IsNamed r.1) requests

abbrev pub AllTwoPerson : Unicode → Db → Type 0
AllTwoPerson u db = All (IsTwoPerson u) db.directives

draft_not-IsReleased : (status : String) → status ≡ "draft" → ¬ (IsReleased status)
draft_not-IsReleased status e (inl h) = ground (arith, eq_iff "draft" "approved")
draft_not-IsReleased status e (inr (inl h)) = ground (arith, eq_iff "draft" "executing")
draft_not-IsReleased status e (inr (inr h)) = ground (arith, eq_iff "draft" "completed")

module _ (p : Platform) where
  advances-IsTwoPerson :
      (ctx : Context) (input : TransitionRequest) (who : Caller) (target : String)
      (d : OperationDirective)
      → IsNamed who
      → IsTwoPerson p.unicode d
      → can_transition operation_directive_transitions d.status target ≡ true
      → (target ≡ "approved" → IsSecondPerson p d who)
      → IsTwoPerson p.unicode (advanced ctx input who target d)
  advances-IsTwoPerson ctx input who target d named good edge second (inl e) =
      let s = second e in
      let submitted : (target == "pending") ≡ false = rw e refl in
      let approved : (target == "approved") ≡ true = rw e refl in
      rw (submitted, approved) (s.0, named, s.1)
  advances-IsTwoPerson ctx input who target d named good edge second (inr (inl e)) =
      let s = good (inl (before_executing d.status (rw e at edge))) in
      let submitted : (target == "pending") ≡ false = rw e refl in
      let approved : (target == "approved") ≡ false = rw e refl in rw (submitted, approved) s
  advances-IsTwoPerson ctx input who target d named good edge second (inr (inr e)) =
      let s = good (inr (inl (before_completed d.status (rw e at edge)))) in
      let submitted : (target == "pending") ≡ false = rw e refl in
      let approved : (target == "approved") ≡ false = rw e refl in rw (submitted, approved) s

  IsTwoPerson-Preserved : Preserved p (AllTwoPerson p.unicode) (IsTwoPerson p.unicode) IsNamed
  unfolding overwrite
  IsTwoPerson-Preserved = record {
    reservoirs = λ db xs h. h;
    gates = λ db xs h. h;
    confirmations = λ db xs h. h;
    audits = λ db row h. h;
    approvals = λ db row h. h;
    read = λ db q row xs h found. All-find (IsTwoPerson p.unicode) q db.directives h found;
    write = λ db q item same good h.
        All-rewrite (IsTwoPerson p.unicode) q _ db.directives (λ row _ _. good) h;
    insert = λ db k now input fresh h.
        All-append (IsTwoPerson p.unicode) db.directives _ h
          ((λ r. absurd (draft_not-IsReleased _ refl r)), tt);
    remove =
        λ db q now h. All-rewrite (IsTwoPerson p.unicode) q _ db.directives (λ row _ good. good) h;
    edits = λ ctx input d good draft r. absurd (draft_not-IsReleased _ draft r);
    advances = advances-IsTwoPerson;
    settles = λ d target v now good executing _ _. good (inr (inl executing));
  }

  -- A step of the append-only invariant: what was logged stays, in its place.
  Grows : Db → Db → Type 0
  Grows before db = Extends before.audits db.audits × Extends before.approvals db.approvals

  Grows-Preserved : (before : Db) → Preserved p (Grows before) (λ d. Unit) (λ who. Unit {0})
  unfolding Grows
  Grows-Preserved before = record {
    reservoirs = λ db xs h. h;
    gates = λ db xs h. h;
    confirmations = λ db xs h. h;
    audits = λ db row h. (Extends-append before.audits db.audits (row ∷ []) h.0, h.1);
    approvals = λ db row h. (h.0, Extends-append before.approvals db.approvals (row ∷ []) h.1);
    read = λ db q row xs h found. tt;
    write = λ db q item same good h. h;
    insert = λ db k now input fresh h. h;
    remove = λ db q now h. h;
    edits = λ ctx input d good draft. tt;
    advances = λ ctx input who target d named good edge second. tt;
    settles = λ d target v now good executing t. tt;
  }

  -- Whatever requests are served on a database, by callers whose names are not empty, and however
  -- they fail: if before them every released directive (approved, executing or completed) has a
  -- submitter and an approver, both with a name, who are two different users under case folding,
  -- then so it is after them.
  pub serve-AllTwoPerson :
      (requests : List (Context × Caller × Request)) (db : Db)
      → AllNamed requests
      → AllTwoPerson p.unicode db
      → AllTwoPerson p.unicode (serve p requests db)
  serve-AllTwoPerson requests db named h = serve-Preserved IsTwoPerson-Preserved requests db named h

  -- Whatever requests are served, and however they fail, the audit log and the approvals of before
  -- are an initial part of those of after: no entry is changed, dropped or moved.
  pub serve-append_only :
      (requests : List (Context × Caller × Request)) (db : Db)
      → Extends db.audits (serve p requests db).audits
        × Extends db.approvals (serve p requests db).approvals
  unfolding Grows
  serve-append_only requests db =
      serve-Preserved (Grows-Preserved db) requests db (all_callers requests)
        (Extends-refl db.audits, Extends-refl db.approvals)
