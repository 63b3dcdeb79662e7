-- ===== src/Sampling/Tests.antt =====
-- The samplers on concrete inputs.
use pinpoint_cpp_agent.Common.{◌+◌, ◌≡◌, refl, false, some, ◌&&◌, not, arith}
use pinpoint_cpp_agent.Common.Int.{pos, negsuc}
use pinpoint_cpp_agent.Sampling.{
  TraceSampler, SampleStats, counter, max_percent_rate, counter_sampled, is_new_sampled,
  throughput_sampler, limiter_of, ask_sampler,
}
use pinpoint_cpp_agent.Sampling.Percent.{percent_calls, percent_window}
use pinpoint_cpp_agent.Sampling.Counter.{counter_calls, counter_window, counter_disabled}
use pinpoint_cpp_agent.Sampling.Trace
use pinpoint_cpp_agent.Limiter.Alone.{allow}

program : Unit {0}
unfolding is_new_sampled limiter_of allow
program = tt

third_call : counter_calls (pos 3) 7 0 ≡ (7, 2)
unfolding counter_calls
third_call = refl

quarter : percent_calls (pos 2500) 8 0 ≡ (20000, 2)
unfolding percent_calls
quarter = refl

percent_window_example : (percent_calls (pos 2500) max_percent_rate 0).1 ≡ 2500
percent_window_example = percent_window 2500 0 max_percent_rate refl (omega arith) (omega arith)

counter_window_example : (counter_calls (pos 3) 3 5).1 ≡ 1
counter_window_example = counter_window 3 5 3 refl (omega arith) (omega arith)

counter_disabled_example :
    (counter_sampled (pos 0) 5 ≡ (5, false)) × (counter_sampled (negsuc 4) 5 ≡ (5, false))
counter_disabled_example = counter_disabled 5 4

abbrev no_stats : SampleStats
no_stats = record { sample_new = 0; unsample_new = 0; sample_cont = 0; skip_new = 0; skip_cont = 0 }

abbrev every_one : TraceSampler
every_one = throughput_sampler (some (counter (pos 1))) (pos 1) (negsuc 0) 5 no_stats

-- the limit of one new trace in a second holds the second one back
second_held_back :
    (is_new_sampled (is_new_sampled every_one 5).0 5).0.stats
    ≡ record no_stats { sample_new = 1; skip_new = 1 }
unfolding program
second_held_back = refl

is_new_sampled_counts_example :
    let sampled = (ask_sampler every_one).1 in
    let allowed = Trace.new_allowed every_one 5 in
    let after = (is_new_sampled every_one 5).0.stats in
    ((is_new_sampled every_one 5).1 ≡ (sampled && allowed))
    × (after.sample_new ≡ 0 + Trace.one_if (sampled && allowed))
    × (after.unsample_new ≡ 0 + Trace.one_if (not sampled))
    × (after.skip_new ≡ 0 + Trace.one_if (sampled && not allowed))
    × (after.sample_cont ≡ 0)
    × (after.skip_cont ≡ 0)
is_new_sampled_counts_example = Trace.is_new_sampled_counts every_one 5
