-- ===== src/Sampling/Percent.antt =====
-- src/sampling.cpp: how many of a run of calls the percent sampler chooses.
use pinpoint_cpp_agent.Common.{
  ℕ, zero, suc, ◌+◌, ◌*◌, ◌/◌, ◌^◌, ◌≤◌, ◌<◌, ◌≡◌, refl, ap, true, false, if◌then◌else◌, arith,
}
use pinpoint_cpp_agent.Common.Int.{ℤ, pos, negsuc}
use pinpoint_cpp_agent.Sampling.{max_percent_rate, percent_sampled}

-- `n` calls from the count `count`: the last count, and how many calls are sampled.
unfoldable pub percent_calls : ℤ → ℕ → ℕ → ℕ × ℕ
unfolding percent_sampled
percent_calls rate zero count = (count, 0)
percent_calls rate (suc n) count =
    let (count', sampled) = percent_sampled rate count in
    let (last, hits) = percent_calls rate n count' in (last, if sampled then hits + 1 else hits)

percent_zero : (n count : ℕ) → percent_calls (pos 0) n count ≡ (count, 0)
unfolding percent_calls
percent_zero zero count = refl
percent_zero (suc n) count = ground (arith, percent_zero n count)

percent_total :
    (rate n count : ℕ)
    → rate ≤ max_percent_rate
    → count + n * rate < 2 ^ 64
    → (percent_calls (pos rate) n count).1 + count / max_percent_rate
      ≡ (count + n * rate) / max_percent_rate
unfolding percent_calls
percent_total zero n count small fits =
    omega (arith, ap (λ (x : ℕ × ℕ). x.1) (percent_zero n count))
percent_total (suc r) zero count small fits = omega arith
percent_total (suc r) (suc n) count small fits =
    let ih = percent_total (suc r) n (count + suc r) small (omega arith) in ground (arith, ih)

-- In any 10000 calls in a row, as long as the counter does not wrap around, a sampler with a rate
-- of at most 100 percent chooses exactly as many as its rate has hundredths of a percent.
pub percent_window :
    (rate count n : ℕ)
    → n ≡ max_percent_rate
    → rate ≤ max_percent_rate
    → count + n * rate < 2 ^ 64
    → (percent_calls (pos rate) n count).1 ≡ rate
percent_window rate count n e small fits =
    let total = percent_total rate n count small fits in
    let product : n * rate ≡ max_percent_rate * rate = ap (λ (x : ℕ). x * rate) e in
    omega (arith, total, product)

-- A rate of 0 or below chooses no call, and one of 100 percent or above chooses every call,
-- whatever the counter is.
percent_extremes :
    (count : ℕ)
    → ((n : ℕ) → (percent_sampled (negsuc n) count).1 ≡ false)
      × ((percent_sampled (pos 0) count).1 ≡ false)
      × ((rate : ℕ) → max_percent_rate ≤ rate → (percent_sampled (pos rate) count).1 ≡ true)
unfolding percent_sampled
percent_extremes count = (λ n. ground arith, refl, λ rate h. always rate h)
  where
    always : (rate : ℕ) → max_percent_rate ≤ rate → (percent_sampled (pos rate) count).1 ≡ true
    always zero h = absurd (omega arith)
    always (suc r) h = ground arith
