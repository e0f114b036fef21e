-- ===== src/Middleware/RateLimit/Bounds.antt =====
-- How many requests the limiter lets through in a minute, over both of its counters.
use Prim.Native.String.{◌++◌}
use gb_516_hydropower_gate_d.Prelude.{
  ℕ, ◌+◌, ◌-◌, ◌≤◌, ◌≡◌, refl, sym, ap, subst, ◌∙◌, String, Bool, true, false, ◌&&◌, ◌==◌,
  string_eq, Option, none, some, List, [], ◌∷◌, ℤ, pos, negsuc, pos_part, ltb_ℤ, All, arith, eq_iff,
  Bool-cases, inl, inr, if◌then◌else◌,
}
use gb_516_hydropower_gate_d.Middleware.RateLimit.{Local, window_of, increment_local}
use gb_516_hydropower_gate_d.Middleware.RateLimit.Counts.{
  IsMap, count_at, increment_local-counts, increment_local-IsMap, increment_local-count_at,
}
use gb_516_hydropower_gate_d.Middleware.RateLimit.Serve.{
  Redis, Limiter, Counters, Arrival, Verdict, passed, rejected, key_of, redis_key, increment,
  settled, verdict, serve, serve_all,
}

abbrev pub is_passed : Verdict → Bool
is_passed (passed limits) = true
is_passed (rejected limits wait) = false

-- The requests of a key that were passed on.
abbrev pub passed_of : String → List Arrival → List Verdict → ℕ
passed_of key [] verdicts = 0
passed_of key (a ∷ arrivals) [] = 0
passed_of key (a ∷ arrivals) (v ∷ verdicts) =
    (if (key_of a == key) && is_passed v then 1 else 0) + passed_of key arrivals verdicts

-- What Redis documents of INCR and EXPIRE, for the counter of one key in one minute, whose value at a
-- state of the server is `value`: the counter does not expire within the minute, a call of another key
-- leaves it or lets it grow, and a call that answers has added one and returns the new value. A call
-- that fails may have counted. All times of a minute have the same text.
pub record IsCounter {S : Type 0} (client : Redis S) (window : ℕ) (key : String) (value : S → ℕ)
    : Type 0 where
  pub minute : String
  pub same_minute : (t : ℕ) → window_of t ≡ window → client.minute_text t ≡ minute
  pub grows : (k : String) (s : S) → value s ≤ value (client.incr_expire k s).1
  pub counts :
      (s : S) {n : ℕ}
      → (client.incr_expire ("rate:" ++ minute ++ ":" ++ key) s).0 ≡ some n
      → (n ≡ value s + 1) × (n ≡ value (client.incr_expire ("rate:" ++ minute ++ ":" ++ key) s).1)

-- The clock of the request reads that minute for both keys.
abbrev pub IsWithin : ℕ → Arrival → Type 0
IsWithin window a = (window_of a.redis_time ≡ window) × (window_of a.local_time ≡ window)

abbrev pub Documented : {S : Type 0} → Option (Redis S) → ℕ → String → (S → ℕ) → Type 0
Documented none window key value = Unit
Documented (some client) window key value = IsCounter client window key value

-- What the counter of Redis still lets through, out of a limit.
abbrev pub room : {S : Type 0} → Option (Redis S) → (S → ℕ) → ℕ → S → ℕ
room none value limit s = 0
room (some client) value limit s = limit - value s

at_most : (limit : ℤ) (n : ℕ) → ltb_ℤ limit (pos n) ≡ false → n ≤ pos_part limit
at_most (pos m) n h = ground arith
at_most (negsuc m) n h = ground arith

is_passed-verdict :
    {S : Type 0} (l : Limiter S) (a : Arrival) (n : ℕ)
    → is_passed (verdict l a n) ≡ true
    → n ≤ pos_part l.limit
is_passed-verdict l a n h = elim (Bool-cases (ltb_ℤ l.limit (pos n))) [
  | inl above ↦ ground (arith, h)
  | inr below ↦ at_most l.limit n below
]

-- A counter that goes from `before` to `after` pays for the request that it lets through.
spends :
    (own passes : Bool) (limit before after : ℕ)
    → before ≤ after
    → (own ≡ true → after ≡ before + 1)
    → (own ≡ true → passes ≡ true → after ≤ limit)
    → (if own && passes then 1 else 0) + (limit - after) ≤ limit - before
spends true true limit before after grows counts bound =
    let one = counts refl in let fits = bound refl refl in omega arith
spends true false limit before after grows counts bound = omega arith
spends false passes limit before after grows counts bound = omega arith

-- A counter that the request does not use.
keeps : (limit before after : ℕ) → before ≤ after → limit - after ≤ limit - before
keeps limit before after grows = omega arith

grown : (own : Bool) (before after : ℕ) → after ≡ before + (if own then 1 else 0) → before ≤ after
grown true before after h = omega arith
grown false before after h = omega arith

module _ {S : Type 0} (l : Limiter S) (key : String) (a : Arrival) where
  abbrev pub hit : ℕ → ℕ
  hit n = if (key_of a == key) && is_passed (verdict l a n) then 1 else 0

  -- In memory.
  local_spends :
      (local : Local)
      → IsMap local
      → hit (increment_local a.local_time (key_of a) local).0
          + (pos_part l.limit
              - count_at
                  (window_of a.local_time)
                  key
                  (increment_local a.local_time (key_of a) local).1)
        ≤ pos_part l.limit - count_at (window_of a.local_time) key local
  local_spends local map =
      let now = a.local_time in
      let step = increment_local now (key_of a) local in
      let counted = increment_local-count_at now (key_of a) local map key in
      spends (key_of a == key) (is_passed (verdict l a step.0)) (pos_part l.limit)
        (count_at (window_of now) key local) (count_at (window_of now) key step.1)
        (grown (key_of a == key) _ _ counted)
        (λ mine. counted ∙ ap (λ b. count_at (window_of now) key local + (if b then 1 else 0)) mine)
        (λ mine passes.
          subst (λ n. n ≤ pos_part l.limit)
            (increment_local-counts now (key_of a) local map
              ∙ ap (λ k. count_at (window_of now) k local + 1) ((eq_iff (key_of a) key).0 mine)
              ∙ sym (
                  counted
                  ∙ ap (λ b. count_at (window_of now) key local + (if b then 1 else 0)) mine))
            (is_passed-verdict l a step.0 passes))

  -- Whichever counter is used, one of the two pays.
  settled_spends :
      (window : ℕ) (local : Local) (r : Option ℕ × S) (before after : ℕ)
      → IsMap local
      → window_of a.local_time ≡ window
      → after ≤ before
      → ((n : ℕ) → r.0 ≡ some n → hit n + after ≤ before)
      → hit (settled a local r).0
          + (after + (pos_part l.limit - count_at window key (settled a local r).1.local))
        ≤ before + (pos_part l.limit - count_at window key local)
  settled_spends window local (some n, s) before after map now grows answered =
      let paid = answered n refl in omega arith
  settled_spends window local (none, s) before after map now grows answered =
      let paid =
        subst
          (λ w.
            hit (increment_local a.local_time (key_of a) local).0
              + (pos_part l.limit
                  - count_at w key (increment_local a.local_time (key_of a) local).1)
            ≤ pos_part l.limit - count_at w key local)
          now (local_spends local map) in
      omega arith

  own_counts :
      (window : ℕ) (value : S → ℕ) (client : Redis S) (s : S)
      → IsCounter client window key value
      → window_of a.redis_time ≡ window
      → (n : ℕ) → (client.incr_expire (redis_key client a) s).0 ≡ some n
      → (key_of a == key) ≡ true
      → (n ≡ value s + 1) × (n ≡ value (client.incr_expire (redis_key client a) s).1)
  own_counts window value client s doc now n h mine =
      let same =
        ap (λ m. "rate:" ++ m ++ ":" ++ key_of a) (doc.same_minute a.redis_time now)
        ∙ ap (λ k. "rate:" ++ doc.minute ++ ":" ++ k) ((eq_iff (key_of a) key).0 mine) in
      subst
        (λ k.
          (client.incr_expire k s).0 ≡ some n
          → (n ≡ value s + 1) × (n ≡ value (client.incr_expire k s).1))
        (sym same) (λ answer. doc.counts s answer) h

  -- The answer of Redis.
  increment_pays :
      (window : ℕ) (value : S → ℕ) (redis : Option (Redis S)) (s : S)
      → Documented redis window key value
      → window_of a.redis_time ≡ window
      → (n : ℕ) → (increment redis a s).0 ≡ some n
      → hit n + room redis value (pos_part l.limit) (increment redis a s).1
        ≤ room redis value (pos_part l.limit) s
  increment_pays window value none s doc now n h = cc
  increment_pays window value (some client) s doc now n h =
      let counted = own_counts window value client s doc now n h in
      spends (key_of a == key) (is_passed (verdict l a n)) (pos_part l.limit) (value s)
        (value (client.incr_expire (redis_key client a) s).1) (doc.grows (redis_key client a) s)
        (λ mine. sym (counted mine).1 ∙ (counted mine).0)
        (λ mine passes.
          subst (λ m. m ≤ pos_part l.limit) (counted mine).1 (is_passed-verdict l a n passes))

  increment_keeps :
      (window : ℕ) (value : S → ℕ) (redis : Option (Redis S)) (s : S)
      → Documented redis window key value
      → room redis value (pos_part l.limit) (increment redis a s).1
        ≤ room redis value (pos_part l.limit) s
  increment_keeps window value none s doc = omega arith
  increment_keeps window value (some client) s doc =
      keeps (pos_part l.limit) _ _ (doc.grows (redis_key client a) s)

settled-IsMap :
    {S : Type 0} (a : Arrival) (local : Local) (r : Option ℕ × S)
    → IsMap local
    → IsMap (settled a local r).1.local
settled-IsMap a local (some n, s) map = map
settled-IsMap a local (none, s) map = increment_local-IsMap a.local_time (key_of a) local map

settled-server :
    {S : Type 0} (a : Arrival) (local : Local) (r : Option ℕ × S)
    → (settled a local r).1.server ≡ r.1
settled-server a local (some n, s) = refl
settled-server a local (none, s) = refl

add_up : (h n x y b : ℕ) → h + (x + y) ≤ b → n ≤ x + y → h + n ≤ b
add_up h n x y b p q = omega arith

-- Of the requests of a key in a minute, whatever other keys do and whichever calls of Redis fail, at
-- most so many are passed on as the counter in Redis and the one in memory each leave of the limit,
-- added up; without a client Redis leaves none.
pub serve_all-bounded :
    {S : Type 0} (l : Limiter S) (window : ℕ) (key : String) (value : S → ℕ)
    → Documented l.redis window key value
    → (arrivals : List Arrival) (c : Counters S) → IsMap c.local
    → All (IsWithin window) arrivals
    → passed_of key arrivals (serve_all l arrivals c).0
      ≤ room l.redis value (pos_part l.limit) c.server
        + (pos_part l.limit - count_at window key c.local)
unfolding serve_all serve
serve_all-bounded l window key value doc [] c map within = omega arith
serve_all-bounded l window key value doc (a ∷ arrivals) c map within =
    let r = increment l.redis a c.server in
    let paid =
      settled_spends l key a window c.local r (room l.redis value (pos_part l.limit) c.server)
        (room l.redis value (pos_part l.limit) r.1) map within.0.1
        (increment_keeps l key a window value l.redis c.server doc)
        (increment_pays l key a window value l.redis c.server doc within.0.0) in
    let rest =
      serve_all-bounded l window key value doc arrivals (settled a c.local r).1
        (settled-IsMap a c.local r map) within.1 in
    add_up (hit l key a (settled a c.local r).0)
      (passed_of key arrivals (serve_all l arrivals (settled a c.local r).1).0)
      (room l.redis value (pos_part l.limit) r.1)
      (pos_part l.limit - count_at window key (settled a c.local r).1.local)
      (room l.redis value (pos_part l.limit) c.server
        + (pos_part l.limit - count_at window key c.local))
      paid
      (subst
        (λ s.
          passed_of key arrivals (serve_all l arrivals (settled a c.local r).1).0
          ≤ room l.redis value (pos_part l.limit) s
            + (pos_part l.limit - count_at window key (settled a c.local r).1.local))
        (settled-server a c.local r) rest)
