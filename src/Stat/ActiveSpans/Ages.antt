-- ===== src/Stat/ActiveSpans/Ages.antt =====
-- The numbers of spans under way by their age.
use pinpoint_cpp_agent.Common.{
  ℕ, zero, suc, ◌+◌, ◌<◌, ◌≡◌, refl, ap, ◌∙◌, Bool, true, false, ◌&&◌, List, [], ◌∷◌, ltb, leb,
  ◌==◌, if◌then◌else◌, arith, sum_below, sum_below_zero, sum_below_same, sum_below_change,
}
use pinpoint_cpp_agent.Stat.ActiveSpans.{
  ActiveSpan, ActiveRequests, no_requests, count_request, count_requests, count_shards,
  collect_active_requests, shard_index, SpanCall, run_calls, active_span_shard_count,
}
use pinpoint_cpp_agent.Stat.ActiveSpans.Sharded.{
  run_table, shard_of_table, Shards, run_calls-Shards, empty-Shards,
}

unfoldable pub count_if {ℓ} : {A : Type ℓ} → (A → Bool) → List A → ℕ
count_if p [] = 0
count_if p (a ∷ l) = (if p a then 1 else 0) + count_if p l

-- A span that started `from` to `to` milliseconds ago.
abbrev pub aged_below : ℕ → ℕ → ActiveSpan → Bool
aged_below sample_time to a = ltb sample_time (a.start_time + to)

abbrev pub aged : ℕ → ℕ → ℕ → ActiveSpan → Bool
aged sample_time from to a =
    leb (a.start_time + from) sample_time && ltb sample_time (a.start_time + to)

abbrev pub aged_from : ℕ → ℕ → ActiveSpan → Bool
aged_from sample_time from a = leb (a.start_time + from) sample_time

-- The numbers that a list of spans adds.
abbrev pub Counts : ℕ → ActiveRequests → List ActiveSpan → ActiveRequests → Type 0
Counts sample_time r l r' =
    (r'.fast ≡ r.fast + count_if (aged_below sample_time 1000) l)
    × (r'.normal ≡ r.normal + count_if (aged sample_time 1000 3000) l)
    × (r'.slow ≡ r.slow + count_if (aged sample_time 3000 5000) l)
    × (r'.very_slow ≡ r.very_slow + count_if (aged_from sample_time 5000) l)

count_request-Counts :
    (sample_time : ℕ) (r : ActiveRequests) (a : ActiveSpan)
    → Counts sample_time r (a ∷ []) (count_request sample_time r a)
unfolding count_if
count_request-Counts sample_time r a = ground arith

count_requests-Counts :
    (sample_time : ℕ) (r : ActiveRequests) (l : List ActiveSpan)
    → Counts sample_time r l (count_requests sample_time r l)
unfolding count_if
count_requests-Counts sample_time r [] = (omega arith, omega arith, omega arith, omega arith)
count_requests-Counts sample_time r (a ∷ l) =
    let (f, n, s, v) = count_request-Counts sample_time r a in
    let (f', n', s', v') = count_requests-Counts sample_time (count_request sample_time r a) l in
    (omega (arith, f, f'), omega (arith, n, n'), omega (arith, s, s'), omega (arith, v, v'))

-- The loop over the shards adds the numbers of each.
count_shards-sums :
    (sample_time : ℕ) (shards : ℕ → List ActiveSpan) (n : ℕ)
    → let r = count_shards sample_time shards n in
      (r.fast ≡ sum_below n (λ j. count_if (aged_below sample_time 1000) (shards j)))
      × (r.normal ≡ sum_below n (λ j. count_if (aged sample_time 1000 3000) (shards j)))
      × (r.slow ≡ sum_below n (λ j. count_if (aged sample_time 3000 5000) (shards j)))
      × (r.very_slow ≡ sum_below n (λ j. count_if (aged_from sample_time 5000) (shards j)))
unfolding count_shards sum_below
count_shards-sums sample_time shards zero = (refl, refl, refl, refl)
count_shards-sums sample_time shards (suc n) =
    let (f, k, s, v) = count_shards-sums sample_time shards n in
    let (f', k', s', v') =
      count_requests-Counts sample_time (count_shards sample_time shards n) (shards n) in
    (omega (arith, f, f'), omega (arith, k, k'), omega (arith, s, s'), omega (arith, v, v'))

-- The parts of a table add up to it.
sum-parts :
    (hash : ℕ → ℕ) (p : ActiveSpan → Bool) (table : List ActiveSpan)
    → sum_below active_span_shard_count (λ j. count_if p (shard_of_table hash j table))
      ≡ count_if p table
unfolding count_if shard_of_table
sum-parts hash p [] = sum_below_zero active_span_shard_count (λ j. 0) (λ j h. refl)
sum-parts hash p (a ∷ l) =
    let k = shard_index hash a.span_id in
    let k_lt : k < active_span_shard_count = omega arith in
    let here : (k == k) ≡ true = ground arith in
    let grown =
      sum_below_change active_span_shard_count k (λ j. count_if p (shard_of_table hash j l))
        (λ j. count_if p (shard_of_table hash j (a ∷ l))) k_lt
        (λ j n.
          let other : (shard_index hash a.span_id == j) ≡ false = ground arith in rw other refl) in
    let at_k : count_if p (shard_of_table hash k (a ∷ l))
        ≡ (if p a then 1 else 0) + count_if p (shard_of_table hash k l) =
      rw here refl in
    omega (arith, grown, at_k, sum-parts hash p l)

parts-sum :
    (hash : ℕ → ℕ) (p : ActiveSpan → Bool) (shards : ℕ → List ActiveSpan) (table : List ActiveSpan)
    → Shards hash shards table
    → sum_below active_span_shard_count (λ j. count_if p (shards j)) ≡ count_if p table
unfolding Shards
parts-sum hash p shards table h =
    sum_below_same active_span_shard_count _ (λ j. count_if p (shard_of_table hash j table))
      (λ j l. ap (count_if p) (h j))
    ∙ sum-parts hash p table

-- After any calls that add and drop spans, the four numbers that are collected count the spans of
-- one table that the same calls fill, where a span that is there is not replaced, by their age:
-- below one second, from one to three, from three to five, and from five seconds on. This holds
-- for any hash that spreads the spans over the 64 shards.
pub collect_active_requests-run_calls :
    (hash : ℕ → ℕ) (l : List SpanCall) (sample_time : ℕ)
    → Counts sample_time no_requests
        (run_table [] l)
        (collect_active_requests (run_calls hash (λ j. []) l) sample_time)
collect_active_requests-run_calls hash l sample_time =
    let shards = run_calls hash (λ j. []) l in
    let h = run_calls-Shards hash (λ j. []) [] l (empty-Shards hash) in
    let (f, k, s, v) = count_shards-sums sample_time shards active_span_shard_count in
    (
      omega (arith, f, parts-sum hash (aged_below sample_time 1000) shards (run_table [] l) h),
      omega (arith, k, parts-sum hash (aged sample_time 1000 3000) shards (run_table [] l) h),
      omega (arith, s, parts-sum hash (aged sample_time 3000 5000) shards (run_table [] l) h),
      omega (arith, v, parts-sum hash (aged_from sample_time 5000) shards (run_table [] l) h),
    )
