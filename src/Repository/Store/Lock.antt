-- ===== src/Repository/Store/Lock.antt =====
-- The optimistic lock of Store[T].Update, and what is read under the key or the code of a row after
-- the row was overwritten.
use gb_516_hydropower_gate_d.Prelude.{
  ℕ, ◌≡◌, refl, String, Bool, true, false, ◌==◌, nat_eq, string_eq, some, List, arith, ap, sym, ◌∙◌,
  ◌⊎◌, inl, inr, any, find?, rewrite, find?-rewrite, rewrite_clears, rewrite_none, subst,
  count_of_any, if◌then◌else◌,
}
use gb_516_hydropower_gate_d.Failure.{Error, err, version_conflict, driver}
use gb_516_hydropower_gate_d.Orm.{Answer, answered, failed, scoped}
use gb_516_hydropower_gate_d.Repository.Database.{Platform, Db}
use gb_516_hydropower_gate_d.Repository.Calls.Runs.{Runs, Fails}
use gb_516_hydropower_gate_d.Repository.Tables.{Aggregate, schema}
use gb_516_hydropower_gate_d.Repository.Store.{
  has_id, has_code, is_version, overwrite, affected, update,
}
use gb_516_hydropower_gate_d.Repository.Store.Laws.{update-Runs}

module _ (p : Platform) {T : Type 0} (a : Aggregate T) where
  version-overwrite :
      (item row : T) → (a.base (overwrite a item row)).version ≡ (a.base item).version
  unfolding overwrite
  version-overwrite item row = ap (λ b. b.version) (a.base-with_base _ item)

  missed :
      (x : Answer (ℕ × List T)) (db : Db)
      → ((n : ℕ) (xs : List T) → x ≡ answered (n, xs) → (n ≡ 0) × (a.put xs db ≡ db))
      → (e : Error) × ((e ≡ version_conflict) ⊎ ((n : ℕ) × (e ≡ driver n)))
        × (affected a version_conflict x db ≡ (err e, db))
  missed (answered (n, xs)) db h =
      let (none_hit, same) = h n xs refl in (version_conflict, inl refl, rw (none_hit, same) refl)
  missed (failed n) db h = (driver n, inr (n, refl), refl)

  -- No live row has that version: the update fails, and changes nothing.
  pub update_missed :
      (id v : ℕ) (item : T) (db : Db)
      → any (scoped (schema a) (is_version a id v)) (a.rows db) ≡ false
      → (e : Error) × ((e ≡ version_conflict) ⊎ ((n : ℕ) × (e ≡ driver n)))
        × Fails (update p a id v item) db e db
  unfolding update
  update_missed id v item db none_there =
      let (e, why, run) =
        missed (p.gorm.updates T (schema a) (is_version a id v) (overwrite a item) (a.rows db)) db
          (λ n xs x.
            let (count, rewritten) =
              p.gorm.updates_rewrites T (schema a) (is_version a id v) (overwrite a item)
                (a.rows db) xs n x in
            (
              count ∙ count_of_any _ (a.rows db) none_there,
              ap (λ ys. a.put ys db) (rewritten ∙ rewrite_none _ _ (a.rows db) none_there)
                  ∙ a.put-rows db,
            )) in
      (e, why, record { run = run })

  version_replaced :
      (id v : ℕ) (item row : T)
      → ((a.base item).version == v) ≡ false
      → scoped (schema a) (is_version a id v) (overwrite a item row) ≡ false
  version_replaced id v item row h = let e = version-overwrite item row in ground (arith, h, e)

  -- Of two updates of one row that expect the same version, the second fails and changes nothing,
  -- whoever makes it: with a version conflict, or with an error of the driver. The first must have
  -- written another version, as each service does.
  pub stale_update-Fails :
      (id v : ℕ) (item later : T) {before after : Db} {u : Unit {0}}
      → ((a.base item).version == v) ≡ false
      → Runs (update p a id v item) before u after
      → (e : Error) × ((e ≡ version_conflict) ⊎ ((n : ℕ) × (e ≡ driver n)))
        × Fails (update p a id v later) after e after
  stale_update-Fails id v item later {before} {after} replaced h =
      let (_, written) = update-Runs p a id v item h in
      update_missed id v later after (
        subst (λ xs. any (scoped (schema a) (is_version a id v)) xs ≡ false)
          (sym (ap a.rows written ∙ a.rows-put _ before))
          (rewrite_clears (scoped (schema a) (is_version a id v)) (overwrite a item) (a.rows before)
            (λ row. version_replaced id v item row replaced)))

module _ {T : Type 0} (a : Aggregate T) where
  -- What a search by the key, the code or the marks of deletion finds in the table after a write.
  pub IsKept : (T → Bool) → T → Type 0
  IsKept q item = (row : T) → scoped (schema a) q (overwrite a item row) ≡ scoped (schema a) q row

  pub has_code-IsKept : (code : String) (item : T) → IsKept (has_code a code) item
  unfolding IsKept overwrite
  has_code-IsKept code item row = rw (a.base-with_base _ item) refl

  pub has_id-IsKept : (id : ℕ) (item : T) → IsKept (has_id a id) item
  unfolding IsKept overwrite
  has_id-IsKept id item row = rw (a.base-with_base _ item) refl

  -- The row that a search finds before a write of its version is found after it, overwritten.
  pub find?-overwritten :
      (q : T → Bool) (id v : ℕ) (item : T) {row : T} (rows : List T)
      → IsKept q item
      → find? (scoped (schema a) q) rows ≡ some row
      → scoped (schema a) (is_version a id v) row ≡ true
      → find?
          (scoped (schema a) q)
          (rewrite (scoped (schema a) (is_version a id v)) (overwrite a item) rows)
        ≡ some (overwrite a item row)
  unfolding IsKept
  find?-overwritten q id v item {row} rows kept found hit =
      find?-rewrite (scoped (schema a) (is_version a id v)) (scoped (schema a) q) (overwrite a item)
        kept rows found
      ∙ ap (λ b. some (if b then overwrite a item row else row)) hit
