-- ===== src/Middleware/RateLimit/Counts.antt =====
-- The counters of the limiter count every call of their minute.
use gb_516_hydropower_gate_d.Prelude.{
  ℕ, suc, ◌+◌, ◌≡◌, refl, sym, ap, subst, ◌∙◌, String, Bool, true, false, ◌==◌, nat_eq, string_eq,
  ltb, Option, none, some, List, [], ◌∷◌, count_if, All, arith, eq_iff, Bool-cases, inl, inr,
  if◌then◌else◌,
}
use gb_516_hydropower_gate_d.Middleware.RateLimit.{
  Bucket, Local, window_of, tracked, bucket?, put, drop_before, cleanup_local, bucket_at,
  increment_local, count_all,
}

-- A Go map has a key at most once.
abbrev pub IsMap : Local → Type 0
IsMap [] = Unit
IsMap ((k, b) ∷ local) = (bucket? k local ≡ none) × IsMap local

abbrev pub count_at : ℕ → String → Local → ℕ
count_at window key local = (bucket_at window (bucket? key local)).count

bucket?-drop_before-none :
    (window : ℕ) (key : String) (local : Local)
    → bucket? key local ≡ none
    → bucket? key (drop_before window local) ≡ none
bucket?-drop_before-none window key [] h = refl
bucket?-drop_before-none window key ((k, b) ∷ local) h =
    ground (arith, h, bucket?-drop_before-none window key local)

drop_before-IsMap : (window : ℕ) (local : Local) → IsMap local → IsMap (drop_before window local)
drop_before-IsMap window [] h = tt
drop_before-IsMap window ((k, b) ∷ local) h = elim (Bool-cases (ltb b.window window)) [
  | inl old ↦ rw old (drop_before-IsMap window local h.1)
  | inr recent ↦
      rw recent (bucket?-drop_before-none window k local h.0, drop_before-IsMap window local h.1)
]

count_at-drop_before :
    (window : ℕ) (key : String) (local : Local)
    → IsMap local
    → count_at window key (drop_before window local) ≡ count_at window key local
count_at-drop_before window key [] h = refl
count_at-drop_before window key ((k, b) ∷ local) h = ground (
  arith,
  eq_iff k key,
  h.0,
  bucket?-drop_before-none window k local h.0,
  count_at-drop_before window key local h.1,
)

bucket?-put-same :
    (key : String) (v : Bucket) (local : Local) → bucket? key (put key v local) ≡ some v
bucket?-put-same key v [] = ground (arith, eq_iff key key)
bucket?-put-same key v ((k, b) ∷ local) =
    ground (arith, eq_iff k key, eq_iff key key, bucket?-put-same key v local)

bucket?-put-other :
    (key other : String) (v : Bucket) (local : Local)
    → (key == other) ≡ false
    → bucket? other (put key v local) ≡ bucket? other local
bucket?-put-other key other v [] h = ground arith
bucket?-put-other key other v ((k, b) ∷ local) h =
    ground
      (arith, eq_iff k key, eq_iff key other, eq_iff k other, bucket?-put-other key other v local)

unequal : (a b : String) → (a == b) ≡ false → (b == a) ≡ false
unequal a b h = ground (arith, eq_iff a b, eq_iff b a)

put-IsMap : (key : String) (v : Bucket) (local : Local) → IsMap local → IsMap (put key v local)
put-IsMap key v [] h = (refl, tt)
put-IsMap key v ((k, b) ∷ local) h = elim (Bool-cases (k == key)) [
  | inl here ↦ rw here (ap (λ x. bucket? x local) (sym ((eq_iff k key).0 here)) ∙ h.0, h.1)
  | inr there ↦
      rw there
        (bucket?-put-other key k v local (unequal k key there) ∙ h.0, put-IsMap key v local h.1)
]

cleanup_local-IsMap :
    (window : ℕ) (local : Local) → IsMap local → IsMap (cleanup_local window local)
unfolding cleanup_local
cleanup_local-IsMap window local h = elim (Bool-cases (ltb (tracked local) 512)) [
  | inl few ↦ rw few h
  | inr many ↦ rw many (drop_before-IsMap window local h)
]

count_at-cleanup_local :
    (window : ℕ) (key : String) (local : Local)
    → IsMap local
    → count_at window key (cleanup_local window local) ≡ count_at window key local
unfolding cleanup_local
count_at-cleanup_local window key local h = elim (Bool-cases (ltb (tracked local) 512)) [
  | inl few ↦ rw few refl
  | inr many ↦ rw many (count_at-drop_before window key local h)
]

bucket_at-window : (window : ℕ) (b : Option Bucket) → (bucket_at window b).window ≡ window
bucket_at-window window b = ground arith

same_window : (w : ℕ) (v : Bucket) → v.window ≡ w → (bucket_at w (some v)).count ≡ v.count
same_window w v h = ground arith

-- Counting one key up leaves the other keys' counts.
counted_put :
    (w : ℕ) (key other : String) (v : Bucket) (local : Local)
    → v.window ≡ w
    → v ≡ bucket_at w (bucket? key local)
    → count_at w other (put key (record { window = v.window; count = v.count + 1 }) local)
      ≡ count_at w other local + (if key == other then 1 else 0)
counted_put w key other v local h e = elim (Bool-cases (key == other)) [
  | inl mine ↦
      rw (sym ((eq_iff key other).0 mine), (eq_iff key key).1 refl)
        (ap (λ b. (bucket_at w b).count)
            (bucket?-put-same key (record { window = v.window; count = v.count + 1 }) local)
          ∙ same_window w (record { window = v.window; count = v.count + 1 }) h
          ∙ ap (λ (x : Bucket). x.count + 1) e)
  | inr theirs ↦ rw theirs (
      ap (λ b. (bucket_at w b).count)
        (bucket?-put-other key other (record { window = v.window; count = v.count + 1 }) local
          theirs)
      ∙ omega arith)
]

module _ (now : ℕ) (key : String) (local : Local) (map : IsMap local) where
  -- A call of the key counts one more, and keeps the map.
  pub increment_local-counts :
      (increment_local now key local).0 ≡ count_at (window_of now) key local + 1
  unfolding increment_local cleanup_local
  increment_local-counts = ap (λ n. n + 1) (count_at-cleanup_local (window_of now) key local map)

  pub increment_local-IsMap : IsMap (increment_local now key local).1
  unfolding increment_local cleanup_local
  increment_local-IsMap = put-IsMap key _ _ (cleanup_local-IsMap (window_of now) local map)

  pub increment_local-count_at :
      (other : String)
      → count_at (window_of now) other (increment_local now key local).1
        ≡ count_at (window_of now) other local + (if key == other then 1 else 0)
  unfolding increment_local cleanup_local
  increment_local-count_at other =
      let swept = cleanup_local (window_of now) local in
      counted_put (window_of now) key other (bucket_at (window_of now) (bucket? key swept)) swept
        (bucket_at-window (window_of now) (bucket? key swept)) refl
      ∙ ap (λ n. n + (if key == other then 1 else 0))
          (count_at-cleanup_local (window_of now) other local map)

count_all-IsMap :
    (calls : List (ℕ × String)) (local : Local) → IsMap local → IsMap (count_all calls local)
unfolding count_all
count_all-IsMap [] local map = map
count_all-IsMap ((now, key) ∷ calls) local map =
    count_all-IsMap calls (increment_local now key local).1
      (increment_local-IsMap now key local map)

one_more : (b : Bool) (a n : ℕ) → (a + (if b then 1 else 0)) + n ≡ a + (if b then suc n else n)
one_more true a n = omega arith
one_more false a n = omega arith

count_at-count_all :
    (window : ℕ) (key : String) (calls : List (ℕ × String)) (local : Local)
    → IsMap local
    → All (λ (call : ℕ × String). window_of call.0 ≡ window) calls
    → count_at window key (count_all calls local)
      ≡ count_at window key local + count_if (λ (call : ℕ × String). call.1 == key) calls
unfolding count_all
count_at-count_all window key [] local map times = omega arith
count_at-count_all window key ((now, k) ∷ calls) local map times =
    let step = increment_local-count_at now k local map key in
    let rest =
      count_at-count_all window key calls (increment_local now k local).1
        (increment_local-IsMap now k local map) times.1 in
    let step' =
      subst
        (λ w.
          count_at w key (increment_local now k local).1
          ≡ count_at w key local + (if k == key then 1 else 0))
        times.0 step in
    rest
    ∙ ap (λ n. n + count_if (λ (call : ℕ × String). call.1 == key) calls) step'
    ∙ one_more (k == key) (count_at window key local)
        (count_if (λ (call : ℕ × String). call.1 == key) calls)

-- In one minute, whatever other keys call in between: the count that a call of the key gets is one
-- more than the calls of the key before it in that minute, those of the counters and those of the
-- list. The sweep of old counters at 512 keys forgets none of them.
pub increment_local-counts_calls :
    (now : ℕ) (key : String) (calls : List (ℕ × String)) (local : Local)
    → IsMap local
    → All (λ (call : ℕ × String). window_of call.0 ≡ window_of now) calls
    → (increment_local now key (count_all calls local)).0
      ≡ count_at (window_of now) key local
        + count_if (λ (call : ℕ × String). call.1 == key) calls
        + 1
increment_local-counts_calls now key calls local map times =
    increment_local-counts now key (count_all calls local) (count_all-IsMap calls local map)
    ∙ ap (λ n. n + 1) (count_at-count_all (window_of now) key calls local map times)
