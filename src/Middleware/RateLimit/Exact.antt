-- ===== src/Middleware/RateLimit/Exact.antt =====
-- Without Redis the limiter passes exactly the first requests of a key in a minute.
use gb_516_hydropower_gate_d.Prelude.{
  ℕ, suc, ◌+◌, ◌-◌, ◌≡◌, refl, ap, subst, ◌∙◌, String, Bool, true, false, ◌&&◌, ◌==◌, string_eq,
  ltb, min, none, List, [], ◌∷◌, count_if, ℤ, pos, negsuc, pos_part, ltb_ℤ, All, arith, eq_iff,
  Bool-cases, inl, inr, if◌then◌else◌,
}
use gb_516_hydropower_gate_d.Middleware.RateLimit.{Local, window_of, increment_local}
use gb_516_hydropower_gate_d.Middleware.RateLimit.Counts.{
  IsMap, count_at, increment_local-counts, increment_local-IsMap, increment_local-count_at,
}
use gb_516_hydropower_gate_d.Middleware.RateLimit.Serve.{
  Limiter, Counters, Arrival, key_of, verdict, new_limiter, serve, serve_all,
}
use gb_516_hydropower_gate_d.Middleware.RateLimit.Bounds.{is_passed, passed_of}

is_passed-if :
    {S : Type 0} (l : Limiter S) (a : Arrival) (n : ℕ)
    → is_passed (verdict l a n) ≡ (if ltb_ℤ l.limit (pos n) then false else true)
is_passed-if l a n = elim (Bool-cases (ltb_ℤ l.limit (pos n))) [
  | inl above ↦ ground arith
  | inr below ↦ ground arith
]

above_limit : (limit : ℤ) (n : ℕ) → ltb_ℤ limit (pos (n + 1)) ≡ ltb (pos_part limit) (n + 1)
above_limit (pos m) n = ground arith
above_limit (negsuc m) n = ground arith

-- One request more, and one less that is left.
one_less :
    (own : Bool) (limit c m : ℕ)
    → (if own && (if ltb limit (c + 1) then false else true) then 1 else 0)
        + min (limit - (c + (if own then 1 else 0))) m
      ≡ min (limit - c) (if own then suc m else m)
one_less true limit c m = ground arith
one_less false limit c m = ground arith

module _ (S : Type 0) (limit : ℤ) (key : String) (a : Arrival) where
  -- A request that is counted in memory passes if the limit leaves it room.
  own_passes :
      (local : Local)
      → IsMap local
      → (key_of a == key)
          && is_passed (
              verdict
                (new_limiter {S = S} none limit)
                a
                (increment_local a.local_time (key_of a) local).0)
        ≡ (key_of a == key)
          && (if ltb (pos_part limit) (count_at (window_of a.local_time) key local + 1)
              then false
              else true)
  unfolding new_limiter
  own_passes local map = elim (Bool-cases (key_of a == key)) [
    | inl mine ↦ rw mine (
        is_passed-if (new_limiter {S = S} none limit) a
          (increment_local a.local_time (key_of a) local).0
        ∙ ap (λ n. if ltb_ℤ limit (pos n) then false else true)
            (increment_local-counts a.local_time (key_of a) local map
              ∙ ap (λ k. count_at (window_of a.local_time) k local + 1)
                  ((eq_iff (key_of a) key).0 mine))
        ∙ ap (λ b. if b then false else true)
            (above_limit limit (count_at (window_of a.local_time) key local)))
    | inr other ↦ rw other refl
  ]

-- Without Redis, of the requests of a key in a minute exactly as many pass as the counter leaves of the
-- limit, or all of them where they are fewer, whatever other keys do.
pub serve_all-exact :
    {S : Type 0} (limit : ℤ) (window : ℕ) (key : String) (arrivals : List Arrival) (c : Counters S)
    → IsMap c.local
    → All (λ (a : Arrival). window_of a.local_time ≡ window) arrivals
    → passed_of key arrivals (serve_all (new_limiter none limit) arrivals c).0
      ≡ min
          (pos_part limit - count_at window key c.local)
          (count_if (λ (a : Arrival). key_of a == key) arrivals)
unfolding serve_all serve new_limiter
serve_all-exact limit window key [] c map within = ground arith
serve_all-exact {S} limit window key (a ∷ arrivals) c map within =
    let step = increment_local a.local_time (key_of a) c.local in
    let next : Counters S = record { server = c.server; local = step.1 } in
    let passes =
      subst
        (λ w.
          (key_of a == key) && is_passed (verdict (new_limiter {S = S} none limit) a step.0)
          ≡ (key_of a == key)
            && (if ltb (pos_part limit) (count_at w key c.local + 1) then false else true))
        within.0 (own_passes S limit key a c.local map) in
    let counted =
      subst
        (λ w. count_at w key step.1 ≡ count_at w key c.local + (if key_of a == key then 1 else 0))
        within.0 (increment_local-count_at a.local_time (key_of a) c.local map key) in
    let rest =
      serve_all-exact limit window key arrivals next
        (increment_local-IsMap a.local_time (key_of a) c.local map) within.1 in
    let m = count_if (λ (b : Arrival). key_of b == key) arrivals in
    ap
      (λ b.
        (if b then 1 else 0)
        + passed_of key arrivals (serve_all (new_limiter {S = S} none limit) arrivals next).0)
      passes
    ∙ ap
        (λ n.
          (if (key_of a == key)
              && (if ltb (pos_part limit) (count_at window key c.local + 1) then false else true)
            then 1
            else 0)
          + n)
        (rest ∙ ap (λ k. min (pos_part limit - k) m) counted)
    ∙ one_less (key_of a == key) (pos_part limit) (count_at window key c.local) m
