-- ===== src/Middleware/RateLimit/Advice.antt =====
-- What the limiter tells a client: the requests that remain, the reset and how long to wait.
use gb_516_hydropower_gate_d.Prelude.{
  ℕ, ◌+◌, ◌-◌, ◌*◌, ◌/◌, ◌%◌, ◌≤◌, ◌<◌, ◌≡◌, ℤ, pos, ltb_ℤ, ◌+ℤ◌, ◌-ℤ◌, ◌≤ℤ◌, arith, int_laws,
  Bool-cases, inl, inr, true, false,
}
use gb_516_hydropower_gate_d.Middleware.RateLimit.{window_of}
use gb_516_hydropower_gate_d.Middleware.RateLimit.Serve.{
  Limiter, Counters, Arrival, Limits, Verdict, passed, rejected, count, window_end, max_ℤ, max,
  serve,
}

-- The reset, in seconds, is a whole minute, later than now and by a minute at most.
abbrev pub IsReset : Arrival → Limits → Type 0
IsReset a limits =
    (limits.reset % 60 ≡ 0)
    × (a.reset_time < limits.reset * 1000000000)
    × (limits.reset * 1000000000 ≤ a.reset_time + 60000000000)

-- A request that is the n-th of its key, and its answer.
abbrev pub IsAdvised : ℤ → Arrival → ℕ → Verdict → Type 0
IsAdvised limit a n (passed limits) =
    (limits.remaining +ℤ pos n ≡ limit) × (pos 0 ≤ℤ limits.remaining) × IsReset a limits
IsAdvised limit a n (rejected limits wait) =
    (ltb_ℤ limit (pos n) ≡ true)
    × (limits.remaining ≡ pos 0)
    × (1 ≤ wait)
    × (wait ≤ 60)
    × IsReset a limits

reset_time-bounds :
    (t : ℕ)
    → (window_end t / 1000000000 % 60 ≡ 0)
      × (t < window_end t / 1000000000 * 1000000000)
      × (window_end t / 1000000000 * 1000000000 ≤ t + 60000000000)
reset_time-bounds t = (omega arith, omega arith, omega arith)

wait_bounds :
    (now later : ℕ)
    → window_of now ≤ later
    → (1 ≤ max 1 ((window_end now - later) / 1000000000))
      × (max 1 ((window_end now - later) / 1000000000) ≤ 60)
wait_bounds now later h = (ground arith, ground arith)

remaining_of :
    (limit : ℤ) (n : ℕ)
    → ltb_ℤ limit (pos n) ≡ false
    → (max_ℤ (pos 0) (limit -ℤ pos n) +ℤ pos n ≡ limit) × (pos 0 ≤ℤ max_ℤ (pos 0) (limit -ℤ pos n))
remaining_of limit n h = (grind int_laws, grind int_laws)

none_remaining :
    (limit : ℤ) (n : ℕ) → ltb_ℤ limit (pos n) ≡ true → max_ℤ (pos 0) (limit -ℤ pos n) ≡ pos 0
none_remaining limit n h = grind int_laws

-- A request that passes is told its limit less its count, which is not negative; a request that is over
-- the limit is told that none remain and to wait from 1 to 60 seconds, if the clock has not gone back
-- before the minute. Both are told the end of the minute, which is later than the clock and by a
-- minute at most.
pub serve-IsAdvised :
    {S : Type 0} (l : Limiter S) (a : Arrival) (c : Counters S)
    → window_of a.reset_time ≤ a.retry_time
    → IsAdvised l.limit a (count l a c).0 (serve l a c).0
unfolding serve
serve-IsAdvised l a c clock =
    let n = (count l a c).0 in
    elim (Bool-cases (ltb_ℤ l.limit (pos n))) [
      | inl above ↦ rw above (
        above,
        none_remaining l.limit n above,
        (wait_bounds _ _ clock).0,
        (wait_bounds _ _ clock).1,
        reset_time-bounds a.reset_time,
      )
      | inr below ↦ rw below (
        (remaining_of l.limit n below).0,
        (remaining_of l.limit n below).1,
        reset_time-bounds a.reset_time,
      )
    ]
