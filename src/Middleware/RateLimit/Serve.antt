-- ===== src/Middleware/RateLimit/Serve.antt =====
-- The middleware of backend/internal/middleware/ratelimit.go: it counts a request, in Redis or else in
-- memory, and passes it on or answers 429. The client of Redis and the layout of a time are parameters.
use Prim.Native.String.{◌++◌}
use gb_516_hydropower_gate_d.Prelude.{
  ℕ, ◌+◌, ◌-◌, ◌/◌, String, ltb, Option, none, some, List, [], ◌∷◌, ℤ, pos, ◌-ℤ◌, ltb_ℤ,
  if◌then◌else◌,
}
use gb_516_hydropower_gate_d.Middleware.RateLimit.{Local, window_of, tracked, increment_local}

-- The client, over a state `S` of the server. `incr_expire` is the transaction of INCR and EXPIRE on a
-- key: the new value of the key, or none for an error, and the state of the server after it.
pub record Redis (S : Type 0) : Type 0 where
  pub incr_expire : String → S → Option ℕ × S
  -- Format("200601021504") of a time in UTC
  pub minute_text : ℕ → String

pub record Limiter (S : Type 0) : Type 0 where
  pub redis : Option (Redis S)
  pub limit : ℤ

-- What the limiter counts with: the server's state and the counters in memory.
pub record Counters (S : Type 0) : Type 0 where
  pub server : S
  pub local : Local

-- A request: its client, its route, and the readings of the clock while it is served, in nanoseconds:
-- for the key in Redis, for the counter in memory, for the reset and for the advice to wait.
pub record Arrival : Type 0 where
  pub client_ip : String
  pub full_path : String
  pub redis_time : ℕ
  pub local_time : ℕ
  pub reset_time : ℕ
  pub retry_time : ℕ

abbrev pub key_of : Arrival → String
key_of a = a.client_ip ++ ":" ++ a.full_path

-- X-RateLimit-Limit, X-RateLimit-Remaining and X-RateLimit-Reset
pub record Limits : Type 0 where
  pub limit : ℤ
  pub remaining : ℤ
  pub reset : ℕ

pub data Verdict : Type 0 where
  -- c.Next()
  passed : Limits → Verdict
  -- 429 with rate_limited, and Retry-After
  rejected : Limits → ℕ → Verdict

abbrev pub max_ℤ : ℤ → ℤ → ℤ
max_ℤ a b = if ltb_ℤ a b then b else a

abbrev pub max : ℕ → ℕ → ℕ
max a b = if ltb a b then b else a

-- The start of the next minute.
abbrev pub window_end : ℕ → ℕ
window_end now = window_of now + 60000000000

-- The seconds until the reset, at least 1; for a reset that is past the source's difference is
-- negative, here it is 0, and both come out as 1.
abbrev pub retry_after : Arrival → ℕ
retry_after a = max 1 ((window_end a.reset_time - a.retry_time) / 1000000000)

module _ {S : Type 0} where
  unfoldable pub new_limiter : Option (Redis S) → ℤ → Limiter S
  new_limiter client limit = record { redis = client; limit = limit }

  abbrev pub redis_key : Redis S → Arrival → String
  redis_key client a = "rate:" ++ client.minute_text a.redis_time ++ ":" ++ key_of a

  -- increment; without a client it fails.
  abbrev pub increment : Option (Redis S) → Arrival → S → Option ℕ × S
  increment none a s = (none, s)
  increment (some client) a s = client.incr_expire (redis_key client a) s

  -- The count of the request: the one of Redis, or else the one in memory.
  abbrev pub settled : Arrival → Local → Option ℕ × S → ℕ × Counters S
  settled a local (some n, s) = (n, record { server = s; local = local })
  settled a local (none, s) =
      let step = increment_local a.local_time (key_of a) local in
      (step.0, record { server = s; local = step.1 })

  abbrev pub count : Limiter S → Arrival → Counters S → ℕ × Counters S
  count l a c = settled a c.local (increment l.redis a c.server)

  abbrev pub limits_of : Limiter S → Arrival → ℕ → Limits
  limits_of l a n = record {
    limit = l.limit;
    remaining = max_ℤ (pos 0) (l.limit -ℤ pos n);
    reset = window_end a.reset_time / 1000000000;
  }

  abbrev pub verdict : Limiter S → Arrival → ℕ → Verdict
  verdict l a n =
      if ltb_ℤ l.limit (pos n)
      then rejected (limits_of l a n) (retry_after a)
      else passed (limits_of l a n)

  -- Middleware
  unfoldable pub serve : Limiter S → Arrival → Counters S → Verdict × Counters S
  serve l a c = let counted = count l a c in (verdict l a counted.0, counted.1)

  -- Requests one after the other: the verdicts, in their order, and the counters after them.
  unfoldable pub serve_all : Limiter S → List Arrival → Counters S → List Verdict × Counters S
  serve_all l [] c = ([], c)
  serve_all l (a ∷ arrivals) c =
      let first = serve l a c in
      let rest = serve_all l arrivals first.1 in (first.0 ∷ rest.0, rest.1)

-- RateLimitStatus
pub record RateLimitStatus : Type 0 where
  pub limit : ℤ
  pub tracked_keys : ℕ
  pub window_end : ℕ
  pub backend : String

abbrev pub backend_of : {S : Type 0} → Option (Redis S) → String
backend_of none = "memory"
backend_of (some client) = "redis"

unfoldable pub status : {S : Type 0} → Limiter S → ℕ → Counters S → RateLimitStatus
status l now c = record {
  limit = l.limit;
  tracked_keys = tracked c.local;
  window_end = window_end now;
  backend = backend_of l.redis;
}
