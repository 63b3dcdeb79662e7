-- ===== src/Stat/Tests.antt =====
-- The statistics at concrete inputs.
use pinpoint_cpp_agent.Common.{
  ℕ, zero, suc, ◌+◌, ◌≤◌, ◌≡◌, ◌==◌, refl, true, false, List, [], ◌∷◌, arith, max, put, Bool-cases,
  inl, inr,
}
use pinpoint_cpp_agent.Stat.ResponseTime.{
  Shard, Pc, idle, spinning, clear, entered, adding, counting, loading, raising, leaving, Move,
  ResponseTimes, init, called, saw_clear, entered_shard, went_on, added, loaded, raised, left,
  enter_writer, add_time, add_request, set_max, leave_writer, pausing, taking_count, shard_count,
  moved, paused, saw_no_writer, began, took_count, took_total, took_max, resumed, Reach, begin,
  next, free,
}
use pinpoint_cpp_agent.Stat.ResponseTime.Totals.{taken}
use pinpoint_cpp_agent.Stat.ResponseTime.Conserved.{Conserved, WeakReach-Conserved}
use pinpoint_cpp_agent.Stat.ResponseTime.Settle.{after_move}
use pinpoint_cpp_agent.Stat.ResponseTime.Exclusion.Weak.{Reach-WeakReach}
use pinpoint_cpp_agent.Stat.ResponseTime.Progress.{CanCollect, Reach-CanCollect}
use pinpoint_cpp_agent.Stat.ActiveSpans.{
  no_requests, collect_active_requests, SpanCall, add, run_calls, count_shards,
}
use pinpoint_cpp_agent.Stat.ActiveSpans.Sharded.{run_table}
use pinpoint_cpp_agent.Stat.ActiveSpans.Ages.{Counts, collect_active_requests-run_calls}
use pinpoint_cpp_agent.Stat.Worker.{
  incr_sample_new, incr_skip_new, Readings, StatsConfig, StatsEvent, counted, elapsed, initialized,
}

abbrev one_hash : ℕ → ℕ
one_hash t = 0

abbrev move_state : ResponseTimes → Pc → Shard → ResponseTimes
move_state s p' shard' = after_move 1 one_hash s 0 (s.pc 0) p' shard'

-- One call of 5 ms.
abbrev in_call : ResponseTimes
in_call =
    let s1 = move_state init (spinning 5) (init.shards 0) in
    let s2 = move_state s1 (clear 5) (s1.shards 0) in
    let s3 = move_state s2 (entered 5) (enter_writer (s2.shards 0)) in
    let s4 = move_state s3 (adding 5) (s3.shards 0) in
    move_state s4 (counting 5) (add_time 5 (s4.shards 0))

abbrev after_call : ResponseTimes
after_call =
    let s1 = move_state in_call (loading 5) (add_request (in_call.shards 0)) in
    let s2 = move_state s1 (raising 5 0) (s1.shards 0) in
    let s3 = move_state s2 (leaving 5) (set_max 5 (s2.shards 0)) in
    move_state s3 idle (leave_writer (s3.shards 0))

in_call-Reach : Reach 1 one_hash in_call
in_call-Reach =
    next
      (next
        (next
          (next (next begin (moved 0 _ _ _ (omega arith) refl (called 5)))
            (moved 0 _ _ _ (omega arith) refl (saw_clear 5 refl)))
          (moved 0 _ _ _ (omega arith) refl (entered_shard 5)))
        (moved 0 _ _ _ (omega arith) refl (went_on 5 refl)))
      (moved 0 _ _ _ (omega arith) refl (added 5))

after_call-Reach : Reach 1 one_hash after_call
after_call-Reach =
    next
      (next
        (next (next in_call-Reach (moved 0 _ _ _ (omega arith) refl (Move.counted 5)))
          (moved 0 _ _ _ (omega arith) refl (loaded 5)))
        (moved 0 _ _ _ (omega arith) refl (raised 5 0 (omega arith) refl)))
      (moved 0 _ _ _ (omega arith) refl (left 5))

abbrev pausing_state : ℕ → ResponseTimes
pausing_state j = record after_call { snapshotting = true; collector = pausing j }

after_call-writers : (j : ℕ) → (after_call.shards j).writers ≡ 0
after_call-writers j = elim (Bool-cases (j == 0)) [ inl e ↦ rw e refl | inr n ↦ rw n refl ]

pausing-Reach : (j : ℕ) → j ≤ shard_count → Reach 1 one_hash (pausing_state j)
pausing-Reach zero h = next after_call-Reach (paused refl)
pausing-Reach (suc j) h =
    next (pausing-Reach j (omega arith)) (saw_no_writer j refl (omega arith) (after_call-writers j))

abbrev take_shard : ℕ → ResponseTimes → ResponseTimes
take_shard j s =
    let k = taken s.collector in
    let shard1 = record (s.shards j) { request_count = 0 } in
    let shards1 = put s.shards j shard1 in
    let shards2 = put shards1 j (record (shards1 j) { acc_response_time = 0 }) in
    record s {
      shards = put shards2 j (record (shards2 j) { max_response_time = 0 });
      collector = taking_count (suc j) (record {
        count = k.count + (s.shards j).request_count;
        total = k.total + (shards1 j).acc_response_time;
        highest = max k.highest (shards2 j).max_response_time;
      });
    }

abbrev taking_state : ℕ → ResponseTimes
taking_state zero = record after_call {
  snapshotting = true;
  collector = taking_count 0 (record { count = 0; total = 0; highest = 0 });
}
taking_state (suc j) = take_shard j (taking_state j)

taking_state-collector :
    (j : ℕ) → (taking_state j).collector ≡ taking_count j (taken (taking_state j).collector)
taking_state-collector zero = refl
taking_state-collector (suc j) = refl

taking-Reach : (j : ℕ) → j ≤ shard_count → Reach 1 one_hash (taking_state j)
taking-Reach zero h = next (pausing-Reach 16 (omega arith)) (began refl)
taking-Reach (suc j) h =
    next
      (next
        (next (taking-Reach j (omega arith))
          (took_count j _ (taking_state-collector j) (omega arith)))
        (took_total j _ refl (omega arith)))
      (took_max j _ refl (omega arith))

abbrev collected_state : ResponseTimes
collected_state = record (taking_state 16) {
  snapshotting = false;
  collector = free;
  finished = [];
  collected =
      (taken (taking_state 16).collector, (taking_state 16).finished) ∷ (taking_state 16).collected;
}

collected_once :
    collected_state.collected ≡ (record { count = 1; total = 5; highest = 5 }, 5 ∷ []) ∷ []
collected_once = refl

WeakReach-Conserved_example : Conserved 1 one_hash collected_state
WeakReach-Conserved_example = WeakReach-Conserved 1 one_hash (
    Reach-WeakReach 1 one_hash
      (next (taking-Reach 16 (omega arith)) (resumed _ (taking_state-collector 16))))

Reach-CanCollect_example : CanCollect 1 one_hash in_call
Reach-CanCollect_example = Reach-CanCollect 1 one_hash (Reach-WeakReach 1 one_hash in_call-Reach)

abbrev three_calls : List SpanCall
three_calls =
    add (record { span_id = 3; start_time = 1000 })
    ∷ add (record { span_id = 4; start_time = 5500 })
    ∷ add (record { span_id = 3; start_time = 7000 })
    ∷ []

collect_active_requests-run_calls_example :
    Counts 6000 no_requests
      (run_table [] three_calls)
      (collect_active_requests (run_calls (λ i. i) (λ j. []) three_calls) 6000)
collect_active_requests-run_calls_example =
    collect_active_requests-run_calls (λ i. i) three_calls 6000

three_calls_counted :
    collect_active_requests (run_calls (λ i. i) (λ j. []) three_calls) 6000
    ≡ record { fast = 1; normal = 0; slow = 0; very_slow = 1 }
unfolding run_calls count_shards
three_calls_counted = refl

abbrev some_readings : Readings
some_readings = record {
  now = 9000;
  heap_alloc = 10;
  heap_max = 20;
  num_threads = 3;
  response_time_avg = 7;
  response_time_max = 8;
  active_requests = no_requests;
}

abbrev two_each : StatsConfig
two_each = record { batch_count = 2; collect_interval = 5000 }

abbrev some_events : List StatsEvent
some_events =
    counted incr_sample_new
    ∷ elapsed some_readings
    ∷ counted incr_skip_new
    ∷ elapsed some_readings
    ∷ counted incr_sample_new
    ∷ elapsed some_readings
    ∷ initialized
    ∷ []
