-- ===== src/Stat/ResponseTime/Exact.antt =====
-- What each collection returns.
use pinpoint_cpp_agent.Common.{
  ℕ, ◌/◌, ◌<◌, ◌≡◌, refl, ap, List, length, ltb, if◌then◌else◌, arith, All, sum_below_zero,
  max_below-le,
}
use pinpoint_cpp_agent.Stat.ResponseTime.{
  Taken, average, ResponseTimes, shard_count, taking_count, moved, paused, saw_no_writer, began,
  took_count, took_total, took_max, resumed, Reach, begin, next,
}
use pinpoint_cpp_agent.Stat.ResponseTime.Exclusion.Steps.{Reach-Excluded}
use pinpoint_cpp_agent.Stat.ResponseTime.Totals.{
  total_of, taken, active-added_time, active-added_request,
}
use pinpoint_cpp_agent.Stat.ResponseTime.Balance.{Reach-Balanced, shard_of-lt}
use pinpoint_cpp_agent.Stat.ResponseTime.Peak.{
  maximum_of, leaving_time, leaving-le-seen, active-seen,
}
use pinpoint_cpp_agent.Stat.ResponseTime.Peak.Steps.{Reach-Peaked}

-- The average and the maximum of a list of response times.
abbrev IsExact : Taken × List ℕ → Type 0
IsExact (k, l) =
    (k.count ≡ length l)
    × (average k ≡ (if ltb 0 (length l) then total_of l / length l else 0))
    × (k.highest ≡ maximum_of l)

module _ (threads : ℕ) (hash : ℕ → ℕ) where
  ending-IsExact :
      {s : ResponseTimes} (k : Taken)
      → Reach threads hash s
      → s.collector ≡ taking_count shard_count k
      → IsExact (k, s.finished)
  ending-IsExact {s} k r e =
      let x = Reach-Excluded threads hash r in
      let b = Reach-Balanced threads hash r in
      let p = Reach-Peaked threads hash r in
      let quiet = λ (t : ℕ) (l : t < threads). x.quiet t l (rw e (shard_of-lt threads hash t)) in
      let count : k.count ≡ length s.finished = omega (
        arith,
        b.requests,
        ap (λ c. (taken c).count) e,
        sum_below_zero shard_count _ (λ j h. b.no_counts j (rw e h)),
        sum_below_zero threads _ (λ t l. active-added_request (s.pc t) (quiet t l)),
      ) in
      let total : k.total ≡ total_of s.finished = omega (
        arith,
        b.times,
        ap (λ c. (taken c).total) e,
        sum_below_zero shard_count _ (λ j h. b.no_times j (rw e h)),
        sum_below_zero threads _ (λ t l. active-added_time (s.pc t) (quiet t l)),
      ) in
      let highest : k.highest ≡ maximum_of s.finished = omega (
        arith,
        p.above,
        p.below,
        ap (λ c. (taken c).highest) e,
        max_below-le shard_count 0 (λ j. (s.shards j).max_response_time)
            (λ j h. omega (arith, p.no_peaks j (rw e h))),
        max_below-le threads 0 (λ t. leaving_time (s.pc t))
            (λ t l. omega (arith, leaving-le-seen (s.pc t), active-seen (s.pc t) (quiet t l))),
      ) in
      (count, rw (count, total) refl, highest)

  -- When all atomic operations take effect in one order (the memory orders of the code allow
  -- other executions), then however those of the threads and of the collections are interleaved, each
  -- collection returns the average and the maximum of the response times of exactly the calls
  -- that finished between the end of the collection before it and its own end: no time is lost,
  -- counted twice, or counted in the sum and not in the number.
  Reach-IsExact : {s : ResponseTimes} → Reach threads hash s → All IsExact s.collected
  Reach-IsExact begin = tt
  Reach-IsExact (next r (moved t p p' shard' l e m)) = Reach-IsExact r
  Reach-IsExact (next r (paused e)) = Reach-IsExact r
  Reach-IsExact (next r (saw_no_writer j e l z)) = Reach-IsExact r
  Reach-IsExact (next r (began e)) = Reach-IsExact r
  Reach-IsExact (next r (took_count j k e l)) = Reach-IsExact r
  Reach-IsExact (next r (took_total j k e l)) = Reach-IsExact r
  Reach-IsExact (next r (took_max j k e l)) = Reach-IsExact r
  Reach-IsExact (next r (resumed k e)) = (ending-IsExact k r e, Reach-IsExact r)
