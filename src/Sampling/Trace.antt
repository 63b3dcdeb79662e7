-- ===== src/Sampling/Trace.antt =====
-- src/sampling.cpp: what the trace samplers decide, and what they count.
use pinpoint_cpp_agent.Common.{ℕ, ◌+◌, ◌≡◌, Bool, true, none, some, ◌&&◌, not, if◌then◌else◌, arith}
use pinpoint_cpp_agent.Limiter.Alone.{allow}
use pinpoint_cpp_agent.Sampling.{
  TraceSampler, basic, throughput, ask_sampler, admit_new, is_new_sampled, is_continue_sampled,
}

abbrev pub one_if : Bool → ℕ
one_if b = if b then 1 else 0

-- what the limiter for new traces would answer
abbrev pub new_allowed : TraceSampler → ℕ → Bool
new_allowed t now = elim t.limits [
  | basic ↦ true
  | throughput none cont ↦ true
  | throughput (some w) cont ↦ (allow now w).1
]

-- A new trace is sampled exactly when the sampler chooses it and the limiter, if there is one,
-- allows it; each call raises exactly one of three counters: of the sampled traces, of those that
-- the sampler left out, or of those that the limiter held back. The counters of continued traces
-- stay.
pub is_new_sampled_counts :
    (t : TraceSampler) (now : ℕ)
    → let sampled = (ask_sampler t).1 in
      let allowed = new_allowed t now in
      let after = (is_new_sampled t now).0.stats in
      ((is_new_sampled t now).1 ≡ (sampled && allowed))
      × (after.sample_new ≡ t.stats.sample_new + one_if (sampled && allowed))
      × (after.unsample_new ≡ t.stats.unsample_new + one_if (not sampled))
      × (after.skip_new ≡ t.stats.skip_new + one_if (sampled && not allowed))
      × (after.sample_cont ≡ t.stats.sample_cont)
      × (after.skip_cont ≡ t.stats.skip_cont)
unfolding is_new_sampled admit_new
is_new_sampled_counts t now =
    (ground arith, ground arith, ground arith, ground arith, ground arith, ground arith)

-- what the limiter for continued traces would answer
abbrev cont_allowed : TraceSampler → ℕ → Bool
cont_allowed t now = elim t.limits [
  | basic ↦ true
  | throughput new none ↦ true
  | throughput new (some w) ↦ (allow now w).1
]

-- A continued trace is sampled exactly when the limiter for continued traces, if there is one,
-- allows it, whatever the sampler says; each call raises exactly one of the two counters of
-- continued traces, and leaves the sampler's count and the counters of new traces alone.
is_continue_sampled_counts :
    (t : TraceSampler) (now : ℕ)
    → let allowed = cont_allowed t now in
      let after = (is_continue_sampled t now).0 in
      ((is_continue_sampled t now).1 ≡ allowed)
      × (after.stats.sample_cont ≡ t.stats.sample_cont + one_if allowed)
      × (after.stats.skip_cont ≡ t.stats.skip_cont + one_if (not allowed))
      × (after.stats.sample_new ≡ t.stats.sample_new)
      × (after.stats.unsample_new ≡ t.stats.unsample_new)
      × (after.stats.skip_new ≡ t.stats.skip_new)
      × (after.count ≡ t.count)
unfolding is_continue_sampled
is_continue_sampled_counts t now = (
  ground arith,
  ground arith,
  ground arith,
  ground arith,
  ground arith,
  ground arith,
  ground arith,
)
