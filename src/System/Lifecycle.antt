-- ===== src/System/Lifecycle.antt =====
-- What the backend promises of a directive, as an abstract state machine, and that the requests refine it.
use gb_516_hydropower_gate_d.Prelude.{
  ℕ, ◌≡◌, ◌≢◌, ◌⊎◌, inl, inr, refl, sym, subst, ◌∙◌, String, Bool, true, false, Option, none, some,
  List, [], ◌∷◌, ◌++◌, ◌==◌, nat_eq, string_eq, arith, All, All-append, All-find, All-rewrite, any,
  find?, find?-none, find?_passes, rewrite,
}
use gb_516_hydropower_gate_d.Constants.Edges.{
  DirectiveStep, submit, approve, start, complete, abort_pending, abort_approved, abort_executing,
  along, step_taken, steps_left,
}
use gb_516_hydropower_gate_d.Model.{OperationDirective}
use gb_516_hydropower_gate_d.Orm.{has_key}
use gb_516_hydropower_gate_d.Repository.{Platform, Db, Context, schema, directives}
use gb_516_hydropower_gate_d.Repository.Store.{overwrite}
use gb_516_hydropower_gate_d.Service.Common.{Caller}
use gb_516_hydropower_gate_d.System.Preserved.{Preserved}
use gb_516_hydropower_gate_d.System.Requests.{Request, serve, serve-Preserved, all_callers}

-- Any number of steps of the life of a directive.
pub data Reaches : String → String → Type 0 where
  stay : {s : String} → Reaches s s
  go_on : {a b c : String} → Reaches a b → DirectiveStep b c → Reaches a c

abbrev pub status_or_draft : Option OperationDirective → String
status_or_draft none = "draft"
status_or_draft (some row) = row.status

-- The status that a directive has in a table; one that is not there yet is a draft.
abbrev pub status_in : List OperationDirective → ℕ → String
status_in rows id = status_or_draft (find? (λ row. row.id == id) rows)

-- No two rows share a key.
abbrev pub IsKeyed : List OperationDirective → Type 0
IsKeyed [] = Unit
IsKeyed (row ∷ rows) = (any (has_key (schema directives) row.id) rows ≡ false) × IsKeyed rows

-- The directive has come to its status by steps, from the one it had in an earlier table.
abbrev pub IsGrown : List OperationDirective → OperationDirective → Type 0
IsGrown before d = Reaches (status_in before d.id) d.status

status_apart :
    (x : OperationDirective) (before : List OperationDirective) (id : ℕ)
    → (x.id == id) ≡ false
    → status_in before id ≡ status_in (x ∷ before) id
status_apart x before id h = rw h refl

behind :
    (x : OperationDirective) (before ys : List OperationDirective)
    → any (has_key (schema directives) x.id) ys ≡ false
    → All (IsGrown before) ys
    → All (IsGrown (x ∷ before)) ys
behind x before [] h g = tt
behind x before (y ∷ ys) h (first, others) = (
  subst (λ s. Reaches s y.status) (status_apart x before y.id (ground (arith, h))) first,
  behind x before ys (ground (arith, h)) others,
)

own_status :
    (x : OperationDirective) (rows : List OperationDirective) → x.status ≡ status_in (x ∷ rows) x.id
own_status x rows = let e : (x.id == x.id) ≡ true = ground arith in rw e refl

-- At the start each directive has its own status.
start-IsGrown : (rows : List OperationDirective) → IsKeyed rows → All (IsGrown rows) rows
start-IsGrown [] h = tt
start-IsGrown (x ∷ rows) (alone, h) = (
  subst (λ s. Reaches s x.status) (own_status x rows) stay,
  behind x rows rows alone (start-IsGrown rows h),
)

-- A key that no directive has now, none had before.
abbrev KeepsKeys : List OperationDirective → List OperationDirective → Type 0
KeepsKeys before now =
    (k : ℕ)
    → any (has_key (schema directives) k) now ≡ false
    → any (has_key (schema directives) k) before ≡ false

abbrev pub IsHistory : List OperationDirective → Db → Type 0
IsHistory before db = All (IsGrown before) db.directives × KeepsKeys before db.directives

any-rewrite :
    (q : OperationDirective → Bool) (f : OperationDirective → OperationDirective)
    → ((row : OperationDirective) → (f row).id ≡ row.id)
    → (k : ℕ) (rows : List OperationDirective)
    → any (has_key (schema directives) k) (rewrite q f rows)
      ≡ any (has_key (schema directives) k) rows
any-rewrite q f same k [] = refl
any-rewrite q f same k (row ∷ rows) = ground (arith, same row, any-rewrite q f same k rows)

any_append_left :
    (k : ℕ) (rows more : List OperationDirective)
    → any (has_key (schema directives) k) (rows ++ more) ≡ false
    → any (has_key (schema directives) k) rows ≡ false
any_append_left k [] more h = refl
any_append_left k (row ∷ rows) more h = ground (arith, h, any_append_left k rows more)

new_status :
    (k : ℕ) (rows : List OperationDirective)
    → any (has_key (schema directives) k) rows ≡ false
    → status_in rows k ≡ "draft"
new_status k [] h = refl
new_status k (row ∷ rows) h = ground (arith, h, new_status k rows)

settled_step :
    (from to : String)
    → from ≡ "executing"
    → (to ≡ "completed") ⊎ (to ≡ "aborted")
    → DirectiveStep from to
settled_step from to e (inl f) = along from to (e, f) complete
settled_step from to e (inr f) = along from to (e, f) abort_executing

module _ (p : Platform) (before : List OperationDirective) where
  IsHistory-Preserved : Preserved p (IsHistory before) (IsGrown before) (λ who. Unit {0})
  unfolding overwrite
  IsHistory-Preserved = record {
    reservoirs = λ db xs h. h;
    gates = λ db xs h. h;
    confirmations = λ db xs h. h;
    audits = λ db row h. h;
    approvals = λ db row h. h;
    read = λ db q row xs h found. All-find (IsGrown before) q db.directives h.0 found;
    write = λ db q item same good h. (
      All-rewrite (IsGrown before) q (overwrite directives item) db.directives
          (λ row hit old.
            subst (λ id. Reaches (status_in before id) item.status) (sym (same row hit)) good)
          h.0,
      λ k fresh.
          h.1 k
            (sym (any-rewrite q (overwrite directives item) (λ row. refl) k db.directives) ∙ fresh),
    );
    insert = λ db k now input fresh h. (
      All-append (IsGrown before) db.directives _ h.0
          (subst (λ s. Reaches s "draft") (sym (new_status k before (h.1 k fresh))) stay, tt),
      λ n free. h.1 n (any_append_left n db.directives _ free),
    );
    remove = λ db q now h. (
      All-rewrite (IsGrown before) q ((schema directives).mark_deleted now) db.directives
          (λ row hit old. old) h.0,
      λ k fresh. h.1 k (
          sym (any-rewrite q ((schema directives).mark_deleted now) (λ row. refl) k db.directives)
          ∙ fresh),
    );
    edits = λ ctx input d good draft. good;
    advances = λ ctx input who target d named good edge second.
        go_on good (step_taken d.status target edge);
    settles =
        λ d target v now good executing to. go_on good (settled_step d.status target executing to);
  }

-- Whatever requests are served, and however they fail: a directive changes its status only by the steps
-- submit, approve, start, complete and abort of its life, from the status that it had before, and from
-- draft if it is new; and no directive is lost from the table, if no two share a key at the start.
pub serve-IsHistory :
    (p : Platform) (requests : List (Context × Caller × Request)) (db : Db)
    → IsKeyed db.directives
    → IsHistory db.directives (serve p requests db)
serve-IsHistory p requests db keyed =
    serve-Preserved (IsHistory-Preserved p db.directives) requests db (all_callers requests)
      (start-IsGrown db.directives keyed, λ k fresh. fresh)

abbrev pub IsFinished : String → Type 0
IsFinished status = (status ≡ "completed") ⊎ (status ≡ "aborted")

steps_left-DirectiveStep : {from to : String} → DirectiveStep from to → steps_left from ≢ 0
steps_left-DirectiveStep submit = omega arith
steps_left-DirectiveStep approve = omega arith
steps_left-DirectiveStep start = omega arith
steps_left-DirectiveStep complete = omega arith
steps_left-DirectiveStep abort_pending = omega arith
steps_left-DirectiveStep abort_approved = omega arith
steps_left-DirectiveStep abort_executing = omega arith

finished_left : (status : String) → IsFinished status → steps_left status ≡ 0
finished_left status (inl h) = rw h refl
finished_left status (inr h) = rw h refl

-- From a finished directive no step leads on.
still : {from to : String} → Reaches from to → steps_left from ≡ 0 → from ≡ to
still stay h = refl
still (go_on {a} {b} r step) h =
    let same = still r h in
    absurd (steps_left-DirectiveStep step (subst (λ s. steps_left s ≡ 0) same h))

passes_id : (row : OperationDirective) (id : ℕ) → (row.id == id) ≡ true → row.id ≡ id
passes_id row id h = ground (arith, h)

finished_found :
    (before after : List OperationDirective) (id : ℕ) (o : Option OperationDirective)
    → find? (λ row. row.id == id) after ≡ o
    → All (IsGrown before) after
    → KeepsKeys before after
    → IsFinished (status_in before id)
    → status_or_draft o ≡ status_in before id
finished_found before after id none e grown keys h =
    sym (new_status id before (keys id (find?-none (λ row. row.id == id) after e)))
finished_found before after id (some row) e grown keys h =
    let reached = All-find (IsGrown before) (λ r. r.id == id) after grown e in
    let same = passes_id row id (find?_passes (λ r. r.id == id) after e) in
    let at_id = subst (λ k. Reaches (status_in before k) row.status) same reached in
    sym (still at_id (finished_left (status_in before id) h))

-- A directive that is completed or aborted keeps its status, whatever requests are served, and however
-- they fail, if no two directives share a key at the start.
pub serve-finished :
    (p : Platform) (requests : List (Context × Caller × Request)) (db : Db) (id : ℕ)
    → IsKeyed db.directives
    → IsFinished (status_in db.directives id)
    → status_in (serve p requests db).directives id ≡ status_in db.directives id
serve-finished p requests db id keyed h =
    let (grown, keys) = serve-IsHistory p requests db keyed in
    finished_found db.directives (serve p requests db).directives id _ refl grown keys h
