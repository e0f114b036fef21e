-- ===== src/Startup/Ready.antt =====
-- When the backend starts.
use gb_516_hydropower_gate_d.Prelude.{
  ℕ, zero, suc, ◌+◌, ◌<◌, ◌≡◌, ◌⊎◌, inl, inr, refl, subst, arith, String, Bool, true, false, Option,
  none, some, if◌then◌else◌, Bool-cases, eq_iff, ◌!=◌, string_eq,
}
use gb_516_hydropower_gate_d.Failure.{Result}
use gb_516_hydropower_gate_d.Config.{
  Config, Process, MapOrder, Invalid, config, load, loaded, settings, validate, is_driver,
}
use gb_516_hydropower_gate_d.Config.Valid.{IsValid}
use gb_516_hydropower_gate_d.Config.Safe.{validate-IsValid}
use gb_516_hydropower_gate_d.Repository.Calls.Runs.{Runs}
use gb_516_hydropower_gate_d.Startup.Seed.{seed}
use gb_516_hydropower_gate_d.Repository.{Platform, Db, Context}
use gb_516_hydropower_gate_d.Startup.Connect.{
  Attempt, is_ready, error_after, ended, connect, wait_for_database, World, opened, connect_redis,
  open_database,
}

later : (n k : ℕ) → n + suc k ≡ suc n + k
later n k = omega arith

module _ (attempts : ℕ → Attempt) where
  connect_in_time :
      (k left attempt : ℕ) (last : Option ℕ)
      → k < left
      → is_ready (attempts (attempt + k)) ≡ true
      → ((j : ℕ) → j < k → (attempts (attempt + j)).cancelled ≡ none)
      → connect attempts left attempt last ≡ ended none
  unfolding connect
  connect_in_time k zero attempt last h ready free = absurd (omega (arith, h))
  connect_in_time zero (suc left) attempt last h ready free =
      let here : attempt + 0 ≡ attempt = omega arith in
      let ready_here : is_ready (attempts attempt) ≡ true =
        subst (λ n. is_ready (attempts n) ≡ true) here ready in
      rw ready_here refl
  connect_in_time (suc k) (suc left) attempt last h ready free =
      let here : attempt + 0 ≡ attempt = omega arith in
      let going : (attempts attempt).cancelled ≡ none =
        subst (λ n. (attempts n).cancelled ≡ none) here (free 0 (omega arith)) in
      let rest =
        connect_in_time k left (suc attempt) (error_after (attempts attempt)) (omega (arith, h))
          (subst (λ n. is_ready (attempts n) ≡ true) (later attempt k) ready)
          (λ j lt.
            subst (λ n. (attempts n).cancelled ≡ none) (later attempt j)
              (free (suc j) (omega (arith, lt)))) in
      elim (Bool-cases (is_ready (attempts attempt))) [
        | inl now ↦ rw now refl
        | inr not_yet ↦ rw (not_yet, going) rest
      ]

  -- If the database is ready at one of the first 20 attempts, and the context is not done before that
  -- attempt, then the wait ends, with no error.
  pub wait_in_time :
      (k : ℕ)
      → k < 20
      → is_ready (attempts (1 + k)) ≡ true
      → ((j : ℕ) → j < k → (attempts (1 + j)).cancelled ≡ none)
      → wait_for_database attempts ≡ ended none
  unfolding wait_for_database
  wait_in_time k h ready free = connect_in_time k 20 1 none h ready free

module _ (os : Process) (m : MapOrder) where
  loaded-config :
      (c d : Config) (o : Option Invalid) → loaded os c o ≡ config d → (o ≡ none) × (c ≡ d)
  loaded-config c d none h = (refl, ground arith)
  loaded-config c d (some e) h = absurd (ground arith)

  -- What Load returns meets the requirements of Validate.
  pub load-IsValid : {c : Config} → load os m ≡ config c → IsValid os c
  unfolding load
  load-IsValid {c} h =
      let (accepted, same) = loaded-config (settings os) c (validate os m (settings os)) h in
      subst (IsValid os) same ((validate-IsValid os m (settings os)).0 accepted)

supported : (d : String) → (d ≡ "postgres") ⊎ (d ≡ "mysql") ⊎ (d ≡ "sqlite") → is_driver d ≡ true
supported d h = ground (arith, eq_iff d "postgres", eq_iff d "mysql", eq_iff d "sqlite", h)

module _ (p : Platform) (ctx : Context) (hash : String → Result String) (w : World) where
  redis_answers : (c : Config) → w.redis_error ≡ none → connect_redis c w ≡ opened
  redis_answers c h = rw h (same_if (c.redis_addr != ""))
    where
      same_if : (b : Bool) → (if b then opened else opened) ≡ opened
      same_if true = refl
      same_if false = refl

  -- The backend starts: with settings that Load returned, with a database that is ready at one of the
  -- first 20 attempts, before the context is done, with a migration and a seeding that succeed, and
  -- with a Redis that answers if one is configured, Open returns no error and leaves the seeded database.
  pub open_in_time :
      (os : Process) (m : MapOrder) {c : Config} (k : ℕ) {db db' : Db} {u : Unit {0}}
      → load os m ≡ config c
      → k < 20
      → is_ready (w.attempts (1 + k)) ≡ true
      → ((j : ℕ) → j < k → (w.attempts (1 + j)).cancelled ≡ none)
      → w.migrate_error ≡ none
      → w.redis_error ≡ none
      → Runs (seed p ctx hash c) db u db'
      → open_database p ctx hash c w db ≡ (opened, db')
  unfolding open_database
  open_in_time os m {c} k {db} {db'} loads h ready free migrated answers seeded =
      let valid = load-IsValid os m loads in
      rw
        (
          supported c.database_driver valid.driver,
          wait_in_time w.attempts k h ready free,
          migrated,
          seeded.run,
        )
        (rw (redis_answers c answers) refl)
