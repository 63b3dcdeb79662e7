-- ===== src/Sampling.antt =====
-- src/sampling.h and src/sampling.cpp: the samplers, with the counters of `AgentStats` that they
-- raise. Rates are `int`, so they may be negative; a count is a `uint64_t` and wraps around.
-- `lround(rate * 100)` of the percent sampler's constructor is taken as done: its rate is the
-- rounded integer. A rate limiter is used by one thread at a time here (`Limiter.Alone`).
pub mod Percent
pub mod Counter
pub mod Trace
pub mod Tests
use pinpoint_cpp_agent.Common.{
  ℕ, zero, suc, ◌+◌, ◌-◌, ◌*◌, ◌%◌, ◌^◌, Bool, true, false, ltb, ◌==◌, if◌then◌else◌, Option, none,
  some,
}
use pinpoint_cpp_agent.Common.Int.{ℤ, pos, negsuc, ltb_ℤ}
use pinpoint_cpp_agent.Limiter.Alone.{Window, allow}

-- `MAX_PERCENT_RATE`
abbrev pub max_percent_rate : ℕ
max_percent_rate = 10000

-- `static_cast<uint64_t>(int)`
abbrev pub to_u64 : ℤ → ℕ
to_u64 (pos n) = n
to_u64 (negsuc n) = 2 ^ 64 - suc n

abbrev pub le_zero : ℤ → Bool
le_zero (pos zero) = true
le_zero (pos (suc n)) = false
le_zero (negsuc n) = true

abbrev pub is_zero : ℤ → Bool
is_zero (pos zero) = true
is_zero (pos (suc n)) = false
is_zero (negsuc n) = false

-- `CounterSampler::isSampled`: the new `sampling_count_`, and the answer.
unfoldable pub counter_sampled : ℤ → ℕ → ℕ × Bool
counter_sampled rate count =
    if le_zero rate
    then (count, false)
    else let count' = (count + 1) % 2 ^ 64 in (count', count' % to_u64 rate == 0)

-- `PercentSampler::isSampled`
unfoldable pub percent_sampled : ℤ → ℕ → ℕ × Bool
percent_sampled rate count =
    if is_zero rate
    then (count, false)
    else let count' = (count + to_u64 rate) % 2 ^ 64 in
      (count', ltb_ℤ (pos (count' % max_percent_rate)) rate)

pub data Sampler : Type 0 where
  counter percent : ℤ → Sampler

unfoldable pub is_sampled : Sampler → ℕ → ℕ × Bool
unfolding counter_sampled percent_sampled
is_sampled (counter rate) count = counter_sampled rate count
is_sampled (percent rate) count = percent_sampled rate count

-- the sampling counters of `AgentStats`
pub record SampleStats : Type 0 where
  pub sample_new : ℕ
  pub unsample_new : ℕ
  pub sample_cont : ℕ
  pub skip_new : ℕ
  pub skip_cont : ℕ

pub data Limits : Type 0 where
  basic : Limits
  throughput : Option Window → Option Window → Limits

-- A trace sampler with its sampler (if there is one), that sampler's count, and its limiters.
pub record TraceSampler : Type 0 where
  pub sampler : Option Sampler
  pub count : ℕ
  pub limits : Limits
  pub stats : SampleStats

abbrev pub incr_sample_new : SampleStats → SampleStats
incr_sample_new s = record s { sample_new = s.sample_new + 1 }

abbrev pub incr_unsample_new : SampleStats → SampleStats
incr_unsample_new s = record s { unsample_new = s.unsample_new + 1 }

abbrev pub incr_sample_cont : SampleStats → SampleStats
incr_sample_cont s = record s { sample_cont = s.sample_cont + 1 }

abbrev pub incr_skip_new : SampleStats → SampleStats
incr_skip_new s = record s { skip_new = s.skip_new + 1 }

abbrev pub incr_skip_cont : SampleStats → SampleStats
incr_skip_cont s = record s { skip_cont = s.skip_cont + 1 }

-- The limiters of `ThroughputLimitTraceSampler(agent, sampler, new_tps, continue_tps)`, made in
-- the second `now`: a rate that is not positive means no limiter.
unfoldable pub limiter_of : ℤ → ℕ → Option Window
limiter_of tps now =
    if ltb_ℤ (pos 0) tps
    then some (record { token = to_u64 tps; epoch = (now * 2) % 2 ^ 64; bucket = to_u64 tps })
    else none

abbrev pub throughput_sampler : Option Sampler → ℤ → ℤ → ℕ → SampleStats → TraceSampler
throughput_sampler sampler new_tps continue_tps now stats = record {
  sampler = sampler;
  count = 0;
  limits = throughput (limiter_of new_tps now) (limiter_of continue_tps now);
  stats = stats;
}

-- `sampler_ ? sampler_->isSampled() : false`
unfoldable pub ask_sampler : TraceSampler → ℕ × Bool
unfolding is_sampled
ask_sampler t = elim t.sampler [ none ↦ (t.count, false) | some s ↦ is_sampled s t.count ]

-- The tail of `isNewSampled`, once the sampler has chosen the trace.
unfoldable pub admit_new : TraceSampler → ℕ → TraceSampler × Bool
admit_new t now = elim t.limits [
  | basic ↦ (record t { stats = incr_sample_new t.stats }, true)
  | throughput none cont ↦ (record t { stats = incr_sample_new t.stats }, true)
  | throughput (some w) cont ↦
      let (w', allowed) = allow now w in
      (
        record t {
          limits = throughput (some w') cont;
          stats = if allowed then incr_sample_new t.stats else incr_skip_new t.stats;
        },
        allowed,
      )
]

-- `isNewSampled` of both classes, in the second `now`
unfoldable pub is_new_sampled : TraceSampler → ℕ → TraceSampler × Bool
unfolding ask_sampler admit_new
is_new_sampled t now =
    let (count', sampled) = ask_sampler t in
    if sampled
    then admit_new (record t { count = count' }) now
    else (record t { count = count'; stats = incr_unsample_new t.stats }, false)

-- `isContinueSampled` of both classes
unfoldable pub is_continue_sampled : TraceSampler → ℕ → TraceSampler × Bool
is_continue_sampled t now = elim t.limits [
  | basic ↦ (record t { stats = incr_sample_cont t.stats }, true)
  | throughput new none ↦ (record t { stats = incr_sample_cont t.stats }, true)
  | throughput new (some w) ↦
      let (w', allowed) = allow now w in
      (
        record t {
          limits = throughput new (some w');
          stats = if allowed then incr_sample_cont t.stats else incr_skip_cont t.stats;
        },
        allowed,
      )
]
