-- ===== src/Witness/Start.antt =====
-- A start on an empty database, and another one after it.
use gb_516_hydropower_gate_d.Prelude.{
  ℕ, ◌+◌, ◌<◌, ◌≡◌, refl, String, none, some, List, [], ◌∷◌, arith, pos, ◌==◌, nat_eq, true, ltb,
  count_if, if◌then◌else◌,
}
use gb_516_hydropower_gate_d.Text.{ascii_only, trim_space, to_lower}
use gb_516_hydropower_gate_d.Failure.{Result, ok}
use gb_516_hydropower_gate_d.Orm.{Schema, scoped}
use gb_516_hydropower_gate_d.Orm.Memory.{memory}
use gb_516_hydropower_gate_d.Config.{Config, config, load, validate, settings}
use gb_516_hydropower_gate_d.Repository.{
  Db, Context, Exec, ◌>>=◌, schema, users, reservoirs, gates, directives, confirmations,
}
use gb_516_hydropower_gate_d.Repository.Calls.Runs.{Runs}
use gb_516_hydropower_gate_d.Service.Common.{Caller}
use gb_516_hydropower_gate_d.System.Requests.{Request, move_directive, serve}
use gb_516_hydropower_gate_d.System.Safety.{AllTwoPerson}
use gb_516_hydropower_gate_d.Startup.Seed.{
  unless_any, seed_users, seed_reservoir, seed_gate_unit, seed_operation_directive,
  seed_execution_confirmation, seed,
}
use gb_516_hydropower_gate_d.Startup.Safe.{seed_then_serve-AllTwoPerson}
use gb_516_hydropower_gate_d.Startup.Fill.{IsFilled}
use gb_516_hydropower_gate_d.Startup.Once.{IsSeeded, seed-IsSeeded, seed_once}
use gb_516_hydropower_gate_d.Startup.Connect.{Attempt, World, opened, open_database}
use gb_516_hydropower_gate_d.Startup.Ready.{open_in_time}
use gb_516_hydropower_gate_d.Witness.Data.{platform, context, caller, to_status}
use gb_516_hydropower_gate_d.Witness.Settings.{defaults, process_with, in_order}

abbrev empty : Db
empty = record {
  users = [];
  audits = [];
  reservoirs = [];
  gates = [];
  directives = [];
  approvals = [];
  confirmations = [];
}

abbrev plain : Config
plain = record {
  app_name = "gates";
  environment = "development";
  port = "8080";
  database_driver = "sqlite";
  database_dsn = "app.db";
  redis_addr = "";
  redis_password = "";
  jwt_secret = "a secret of some length";
  bootstrap_admin_password = "a";
  bootstrap_operator_password = "b";
  bootstrap_reviewer_password = "c";
  token_ttl = pos 1;
  request_limit = pos 10;
  login_request_limit = pos 1;
  trusted_proxies = [];
  startup_timeout = pos 1;
  shutdown_timeout = pos 1;
  read_header_timeout = pos 1;
  read_timeout = pos 1;
  write_timeout = pos 1;
  idle_timeout = pos 1;
}

-- A hash that is the password itself.
abbrev hash : String → Result String
hash password = ok password

abbrev aborting : List (Context × Caller × Request)
aborting = (context, caller "carl" "operator", move_directive 3 (to_status "aborted" 1)) ∷ []

seed_then_serve-AllTwoPerson_example :
    AllTwoPerson ascii_only (serve platform aborting (seed platform context hash plain empty).1)
seed_then_serve-AllTwoPerson_example =
    seed_then_serve-AllTwoPerson platform context hash plain aborting empty (refl, tt) tt

abbrev seeded : Db
seeded = (seed platform context hash plain empty).1

first_start : Runs (seed platform context hash plain) empty tt seeded
unfolding seed memory ◌>>=◌
first_start = record { run = refl }

-- In memory a step on a filled table counts its rows and stops.
skipped :
    {T : Type 0} (s : Schema T) (rows : Db → List T) (fill : Exec (Unit {0})) (db : Db)
    → IsFilled s (rows db)
    → unless_any (λ d. memory.count T s (λ row. true) (rows d)) fill db ≡ (ok tt, db)
unfolding unless_any memory ◌>>=◌
skipped s rows fill db h =
    let some_rows : ltb 0 (count_if (scoped s (λ row. true)) (rows db)) ≡ true =
      ground (arith, h.live) in
    rw some_rows refl

users_skipped : (db : Db) → IsSeeded db → seed_users platform context hash plain db ≡ (ok tt, db)
unfolding seed_users
users_skipped db h = skipped users (λ d. d.users) _ db h.users

reservoirs_skipped : (db : Db) → IsSeeded db → seed_reservoir platform context db ≡ (ok tt, db)
unfolding seed_reservoir
reservoirs_skipped db h = skipped (schema reservoirs) (λ d. d.reservoirs) _ db h.reservoirs

gates_skipped : (db : Db) → IsSeeded db → seed_gate_unit platform context db ≡ (ok tt, db)
unfolding seed_gate_unit
gates_skipped db h = skipped (schema gates) (λ d. d.gates) _ db h.gates

directives_skipped :
    (db : Db) → IsSeeded db → seed_operation_directive platform context db ≡ (ok tt, db)
unfolding seed_operation_directive
directives_skipped db h = skipped (schema directives) (λ d. d.directives) _ db h.directives

confirmations_skipped :
    (db : Db) → IsSeeded db → seed_execution_confirmation platform context db ≡ (ok tt, db)
unfolding seed_execution_confirmation
confirmations_skipped db h =
    skipped (schema confirmations) (λ d. d.confirmations) _ db h.confirmations

again : (db : Db) → IsSeeded db → seed platform context hash plain db ≡ (ok tt, db)
unfolding seed ◌>>=◌
again db h =
    rw
      (
        users_skipped db h,
        reservoirs_skipped db h,
        gates_skipped db h,
        directives_skipped db h,
        confirmations_skipped db h,
      )
      refl

second_start : Runs (seed platform context hash plain) seeded tt seeded
second_start = record { run = again seeded (seed-IsSeeded platform context hash plain first_start) }

seed_once_example : IsSeeded seeded × (seeded ≡ seeded)
seed_once_example =
    seed_once platform context context hash hash plain plain first_start second_start

-- The database is down at the first two attempts.
abbrev down : Attempt
down = record {
  open_error = some 7;
  handle_error = none;
  ping_error = none;
  second_ping_error = none;
  cancelled = none;
}

abbrev up : Attempt
up = record down { open_error = none }

abbrev third_time : ℕ → Attempt
third_time n = if n == 3 then up else down

loads : load (process_with "a secret of some length") in_order ≡ config defaults
unfolding load validate trim_space to_lower
loads = refl

abbrev world : World
world = record { attempts = third_time; migrate_error = none; redis_error = none }

loaded_start :
    Runs
      (seed platform context hash defaults)
      empty
      tt
      (seed platform context hash defaults empty).1
unfolding seed memory ◌>>=◌ settings to_lower
loaded_start = record { run = refl }

none_before : (j : ℕ) → j < 2 → (third_time (1 + j)).cancelled ≡ none
none_before j h = ground (arith, h)

open_in_time_example :
    open_database platform context hash defaults world empty
    ≡ (opened, (seed platform context hash defaults empty).1)
open_in_time_example =
    open_in_time platform context hash world (process_with "a secret of some length") in_order 2
      loads (omega arith) refl none_before refl refl loaded_start
