-- ===== src/Startup/Connect.antt =====
-- Open (backend/internal/database/database.go): it waits for the database, migrates it, seeds it and
-- connects to Redis. What gorm, the driver, Redis and the context of the call answer is a parameter.
use gb_516_hydropower_gate_d.Prelude.{
  ℕ, zero, suc, String, Bool, true, false, Option, none, some, if◌then◌else◌, ◌!=◌, string_eq,
}
use gb_516_hydropower_gate_d.Failure.{Error, Result, ok, err}
use gb_516_hydropower_gate_d.Config.{Config, is_driver}
use gb_516_hydropower_gate_d.Repository.{Platform, Db, Context}
use gb_516_hydropower_gate_d.Startup.Seed.{seed}

-- What one attempt meets; none is the error nil.
pub record Attempt : Type 0 where
  -- of gorm.Open, of db.DB, and of the two pings
  pub open_error : Option ℕ
  pub handle_error : Option ℕ
  pub ping_error : Option ℕ
  pub second_ping_error : Option ℕ
  -- ctx.Err(), if the context is done before the second is over
  pub cancelled : Option ℕ

abbrev pub is_nil : Option ℕ → Bool
is_nil none = true
is_nil (some e) = false

abbrev pub else_error : Option ℕ → Option ℕ → Option ℕ
else_error none later = later
else_error (some e) later = some e

-- The condition of `break`.
abbrev pub is_ready : Attempt → Bool
is_ready a =
    if is_nil a.open_error
    then (if is_nil a.handle_error then is_nil a.ping_error else false)
    else false

-- `err` at the end of an attempt that was not ready
abbrev pub error_after : Attempt → Option ℕ
error_after a = else_error a.open_error (else_error a.handle_error a.second_ping_error)

pub data Connected : Type 0 where
  -- the loop is over, with that `err`
  ended : Option ℕ → Connected
  stopped : ℕ → Connected

abbrev pub unless_cancelled : Option ℕ → Connected → Connected
unless_cancelled none rest = rest
unless_cancelled (some e) rest = stopped e

-- The loop, from an attempt on, with the number of attempts that are left.
unfoldable pub connect : (ℕ → Attempt) → ℕ → ℕ → Option ℕ → Connected
connect attempts zero attempt last = ended last
connect attempts (suc left) attempt last =
    let a = attempts attempt in
    let rest = connect attempts left (suc attempt) (error_after a) in
    if is_ready a then ended none else unless_cancelled a.cancelled rest

-- Attempts 1 to 20.
unfoldable pub wait_for_database : (ℕ → Attempt) → Connected
unfolding connect
wait_for_database attempts = connect attempts 20 1 none

-- How Open ends.
pub data Opened : Type 0 where
  opened unsupported_driver : Opened
  wait_stopped no_connection no_migration no_redis : ℕ → Opened
  no_seed : Error → Opened

-- What the outside of the backend answers while it starts.
pub record World : Type 0 where
  pub attempts : ℕ → Attempt
  pub migrate_error : Option ℕ
  pub redis_error : Option ℕ

abbrev pub connect_redis : Config → World → Opened
connect_redis c w =
    if c.redis_addr != ""
    then elim w.redis_error [ none ↦ opened | some e ↦ no_redis e ]
    else opened

abbrev pub after_seed : Config → World → Result (Unit {0}) × Db → Opened × Db
after_seed c w (ok u, db) = (connect_redis c w, db)
after_seed c w (err e, db) = (no_seed e, db)

module _ (p : Platform) (ctx : Context) (hash : String → Result String) (c : Config)
    (w : World) where
  abbrev pub after_connect : Connected → Db → Opened × Db
  after_connect (stopped e) db = (wait_stopped e, db)
  after_connect (ended (some e)) db = (no_connection e, db)
  after_connect (ended none) db = elim w.migrate_error [
    | some e ↦ (no_migration e, db)
    | none ↦ after_seed c w (seed p ctx hash c db)
  ]

  unfoldable pub open_database : Db → Opened × Db
  unfolding wait_for_database
  open_database db =
      if is_driver c.database_driver
      then after_connect (wait_for_database w.attempts) db
      else (unsupported_driver, db)
