-- ===== src/Middleware/RateLimit.antt =====
-- backend/internal/middleware/ratelimit.go: the counters that the limiter keeps in memory, for when
-- Redis is absent or fails. Serve has the middleware over them.
pub mod Advice
pub mod Bounds
pub mod Counts
pub mod Exact
pub mod Serve
use gb_516_hydropower_gate_d.Prelude.{
  ℕ, suc, ◌+◌, ◌-◌, ◌%◌, ◌≡◌, refl, sym, ap, subst, ◌∙◌, String, Bool, true, false, ◌==◌, nat_eq,
  string_eq, ltb, Option, none, some, List, [], ◌∷◌, any, count_if, All, arith, eq_iff, Bool-cases,
  inl, inr, if◌then◌else◌,
}

pub record Bucket : Type 0 where
  pub window : ℕ
  pub count : ℕ

-- map[string]bucket
abbrev pub Local : Type 0
Local = List (String × Bucket)

-- Truncate(time.Minute) of a time in nanoseconds
abbrev pub window_of : ℕ → ℕ
window_of now = now - now % 60000000000

abbrev pub tracked : Local → ℕ
tracked [] = 0
tracked (entry ∷ local) = suc (tracked local)

abbrev pub bucket? : String → Local → Option Bucket
bucket? key [] = none
bucket? key ((k, b) ∷ local) = if k == key then some b else bucket? key local

-- `l.local[key] = value`
abbrev pub put : String → Bucket → Local → Local
put key value [] = (key, value) ∷ []
put key value ((k, b) ∷ local) =
    if k == key then (key, value) ∷ local else (k, b) ∷ put key value local

abbrev pub drop_before : ℕ → Local → Local
drop_before window [] = []
drop_before window ((k, b) ∷ local) =
    if ltb b.window window then drop_before window local else (k, b) ∷ drop_before window local

unfoldable pub cleanup_local : ℕ → Local → Local
cleanup_local window local = if ltb (tracked local) 512 then local else drop_before window local

-- The bucket that is counted up: a fresh one for a new key or a new window.
abbrev pub bucket_at : ℕ → Option Bucket → Bucket
bucket_at window none = record { window = window; count = 0 }
bucket_at window (some b) = if b.window == window then b else record { window = window; count = 0 }

-- At a time; the count, and the counters after it.
unfoldable pub increment_local : ℕ → String → Local → ℕ × Local
unfolding cleanup_local
increment_local now key local =
    let window = window_of now in
    let swept = cleanup_local window local in
    let value = bucket_at window (bucket? key swept) in
    (value.count + 1, put key (record { window = value.window; count = value.count + 1 }) swept)

-- Calls one after the other, each with its time and its key.
unfoldable pub count_all : List (ℕ × String) → Local → Local
count_all [] local = local
count_all ((now, key) ∷ calls) local = count_all calls (increment_local now key local).1
