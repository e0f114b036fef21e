-- ===== src/Witness/Limits.antt =====
-- The limiter at three requests of one client, with a Redis that answers once and then fails, and
-- without Redis.
use gb_516_hydropower_gate_d.Prelude.{
  ℕ, zero, suc, ◌+◌, ◌≤◌, ◌≡◌, refl, string_eq, nat_eq, Option, none, some, List, [], ◌∷◌, pos,
  arith,
}
use gb_516_hydropower_gate_d.Middleware.RateLimit.{increment_local, cleanup_local}
use gb_516_hydropower_gate_d.Middleware.RateLimit.Serve.{
  Redis, Counters, Arrival, count, new_limiter, serve, serve_all,
}
use gb_516_hydropower_gate_d.Middleware.RateLimit.Bounds.{IsCounter, passed_of, serve_all-bounded}
use gb_516_hydropower_gate_d.Middleware.RateLimit.Exact.{serve_all-exact}
use gb_516_hydropower_gate_d.Middleware.RateLimit.Advice.{IsAdvised, serve-IsAdvised}

-- Its state is the count of every key together.
abbrev answer_once : ℕ → Option ℕ × ℕ
answer_once zero = (some 1, 1)
answer_once (suc s) = (none, suc s)

once_grows : (s : ℕ) → s ≤ (answer_once s).1
once_grows zero = omega arith
once_grows (suc s) = omega arith

once_counts : (s n : ℕ) → (answer_once s).0 ≡ some n → (n ≡ s + 1) × (n ≡ (answer_once s).1)
once_counts zero n h = (cc, cc)
once_counts (suc s) n h = (cc, cc)

abbrev once : Redis ℕ
once = record { incr_expire = λ key s. answer_once s; minute_text = λ t. "202501010001" }

once-IsCounter : IsCounter once 60000000000 "a:/x" (λ s. s)
once-IsCounter = record {
  minute = "202501010001";
  same_minute = λ t within. refl;
  grows = λ k s. once_grows s;
  counts = λ s {n} answer. once_counts s n answer;
}

abbrev at : ℕ → Arrival
at now = record {
  client_ip = "a";
  full_path = "/x";
  redis_time = now;
  local_time = now;
  reset_time = now;
  retry_time = now;
}

abbrev three : List Arrival
three = at 60000000001 ∷ at 60000000002 ∷ at 60000000003 ∷ []

abbrev start : Counters ℕ
start = record { server = 0; local = [] }

-- One passes on each of the two counters.
two_pass : passed_of "a:/x" three (serve_all (new_limiter (some once) (pos 1)) three start).0 ≡ 2
unfolding serve_all serve new_limiter increment_local cleanup_local
two_pass = refl

serve_all-bounded_example :
    passed_of "a:/x" three (serve_all (record { redis = some once; limit = pos 1 }) three start).0
    ≤ 2
serve_all-bounded_example =
    serve_all-bounded (record { redis = some once; limit = pos 1 }) 60000000000 "a:/x" (λ s. s)
      once-IsCounter three start tt (((refl, refl)), ((refl, refl), ((refl, refl), tt)))

serve_all-exact_example :
    passed_of "a:/x" three (serve_all (new_limiter none (pos 2)) three start).0 ≡ 2
serve_all-exact_example =
    serve_all-exact (pos 2) 60000000000 "a:/x" three start tt (refl, (refl, (refl, tt)))

serve-IsAdvised_example :
    IsAdvised
      (pos 1)
      (at 60000000001)
      (count (record { redis = some once; limit = pos 1 }) (at 60000000001) start).0
      (serve (record { redis = some once; limit = pos 1 }) (at 60000000001) start).0
serve-IsAdvised_example =
    serve-IsAdvised (record { redis = some once; limit = pos 1 }) (at 60000000001) start
      (omega arith)
