-- ===== src/Stat/ResponseTime/Peak/Steps.antt =====
-- The maximum of the shards and the collection is that of the finished calls, at each step.
use pinpoint_cpp_agent.Common.{
  ℕ, suc, ◌≤◌, ◌<◌, ◌≡◌, refl, ap, Bool, true, arith, max, put, max_below, term-le-max_below,
  max_below-le, put-holds,
}
use pinpoint_cpp_agent.Stat.ResponseTime.{
  Shard, Pc, Collector, pausing, taking_count, ResponseTimes, init, shard_count, shard_of, Move,
  finish, Step, moved, paused, saw_no_writer, began, took_count, took_total, took_max, resumed,
  Reach, begin, next,
}
use pinpoint_cpp_agent.Stat.ResponseTime.Exclusion.{Excluded}
use pinpoint_cpp_agent.Stat.ResponseTime.Exclusion.Steps.{Reach-Excluded}
use pinpoint_cpp_agent.Stat.ResponseTime.Totals.{taken, emptied_peaks, emptied_peaks-le}
use pinpoint_cpp_agent.Stat.ResponseTime.Balance.{
  moved-zero, emptied_next, emptied_same, shard_of-lt,
}
use pinpoint_cpp_agent.Stat.ResponseTime.Peak.{
  maximum_of, leaving_time, seen_max, peak, Move-max, Move-max-le, Move-seen, Move-finish,
  leaving-le-seen, active-seen,
}
use pinpoint_cpp_agent.Common.{max_below-put-le, max_below-le-put, value-le-max_below-put}

module _ (threads : ℕ) (hash : ℕ → ℕ) where
  pub record Peaked (s : ResponseTimes) : Type 0 where
    pub above : maximum_of s.finished ≤ peak s
    pub below :
        peak s ≤ max (maximum_of s.finished) (max_below threads (λ t. leaving_time (s.pc t)))
    pub seen : (t : ℕ) → t < threads → seen_max (s.pc t) ≤ peak s
    pub no_peaks : (j : ℕ) → j < emptied_peaks s.collector → (s.shards j).max_response_time ≡ 0

  moved-Peaked :
      (s : ResponseTimes) (t : ℕ) (p p' : Pc) (shard' : Shard)
      → Excluded threads hash s
      → Peaked s
      → t < threads
      → s.pc t ≡ p
      → Move s.snapshotting (s.shards (shard_of threads hash t)) p p' shard'
      → Peaked (record s {
        shards = put s.shards (shard_of threads hash t) shard';
        pc = put s.pc t p';
        finished = finish p s.finished;
      })
  moved-Peaked s t p p' shard' x b l e m =
      let k = shard_of threads hash t in
      let max_of = λ (v : Shard). v.max_response_time in
      let k_lt : k < shard_count = omega arith in
      let peaks_le = max_below-le-put max_of shard_count k s.shards shard' in
      let peaks_ge = max_below-put-le max_of shard_count k s.shards shard' in
      let peak_here = value-le-max_below-put max_of shard_count k s.shards shard' k_lt in
      let calls = max_below-le-put leaving_time threads t s.pc p' in
      let call_here = value-le-max_below-put leaving_time threads t s.pc p' l in
      let saw = b.seen t l in
      record {
        above = omega (
          arith,
          b.above,
          peaks_le,
          peak_here,
          Move-max m,
          Move-finish s.finished m,
          saw,
          ap seen_max e,
          leaving-le-seen p,
        );
        below = omega (
          arith,
          b.below,
          peaks_ge,
          Move-max-le m,
          Move-finish s.finished m,
          calls,
          call_here,
          ap leaving_time e,
          term-le-max_below shard_count k (λ j. max_of (s.shards j)) k_lt,
        );
        seen =
            put-holds
              (λ q.
                seen_max q
                ≤ max (taken s.collector).highest
                    (max_below shard_count (λ j. max_of (put s.shards k shard' j))))
              threads t s.pc p'
              (λ u h n. omega (arith, b.seen u h, peaks_le, peak_here, Move-max m))
              (λ h.
                omega (arith, Move-seen m, saw, ap seen_max e, peaks_le, peak_here, Move-max m));
        no_peaks =
            moved-zero threads hash s max_of emptied_peaks t p p' shard' x l e m (λ v. v.2)
              (emptied_peaks-le s.collector) b.no_peaks;
      }

  -- A step of a collection that keeps the peak.
  collected-Peaked :
      (s : ResponseTimes) (shards : ℕ → Shard) (flag : Bool) (collector : Collector)
      → Peaked s
      → peak (record s { shards = shards; snapshotting = flag; collector = collector }) ≡ peak s
      → ((j : ℕ) → j < emptied_peaks collector → (shards j).max_response_time ≡ 0)
      → Peaked (record s { shards = shards; snapshotting = flag; collector = collector })
  collected-Peaked s shards flag collector b same zeros = record {
    above = omega (arith, b.above, same);
    below = omega (arith, b.below, same);
    seen = λ t h. omega (arith, b.seen t h, same);
    no_peaks = zeros;
  }

  -- A shard changed in other values.
  peaks_same :
      (j : ℕ) (shards : ℕ → Shard) (shard' : Shard)
      → j < shard_count
      → shard'.max_response_time ≡ (shards j).max_response_time
      → max_below shard_count (λ i. (put shards j shard' i).max_response_time)
        ≡ max_below shard_count (λ i. (shards i).max_response_time)
  peaks_same j shards shard' l same =
      let max_of = λ (v : Shard). v.max_response_time in
      omega (
        arith,
        same,
        max_below-put-le max_of shard_count j shards shard',
        max_below-le-put max_of shard_count j shards shard',
        value-le-max_below-put max_of shard_count j shards shard' l,
        term-le-max_below shard_count j (λ i. max_of (shards i)) l,
      )

  Step-Peaked :
      {s t : ResponseTimes} → Excluded threads hash s → Peaked s → Step threads hash s t → Peaked t
  Step-Peaked {s} x b (moved t p p' shard' l e m) = moved-Peaked s t p p' shard' x b l e m
  Step-Peaked {s} x b (paused e) =
      collected-Peaked s s.shards true (pausing 0) b (rw e refl) (λ j h. absurd (omega arith))
  Step-Peaked {s} x b (saw_no_writer j e l z) =
      collected-Peaked s s.shards s.snapshotting (pausing (suc j)) b (rw e refl)
        (λ i h. absurd (omega arith))
  Step-Peaked {s} x b (began e) =
      collected-Peaked s s.shards s.snapshotting
        (taking_count 0 (record { count = 0; total = 0; highest = 0 })) b (rw e refl)
        (λ i h. absurd (omega arith))
  Step-Peaked {s} x b (took_count j k e l) =
      let shard' = record (s.shards j) { request_count = 0 } in
      collected-Peaked s (put s.shards j shard') s.snapshotting _ b
        (omega (arith, ap (λ c. (taken c).highest) e, peaks_same j s.shards shard' l refl))
        (emptied_same threads hash (λ v. v.max_response_time) j j s.shards shard' refl
          (λ i h. b.no_peaks i (rw e h)))
  Step-Peaked {s} x b (took_total j k e l) =
      let shard' = record (s.shards j) { acc_response_time = 0 } in
      collected-Peaked s (put s.shards j shard') s.snapshotting _ b
        (omega (arith, ap (λ c. (taken c).highest) e, peaks_same j s.shards shard' l refl))
        (emptied_same threads hash (λ v. v.max_response_time) j j s.shards shard' refl
          (λ i h. b.no_peaks i (rw e h)))
  Step-Peaked {s} x b (took_max j k e l) =
      let shard' = record (s.shards j) { max_response_time = 0 } in
      let max_of = λ (v : Shard). v.max_response_time in
      collected-Peaked s (put s.shards j shard') s.snapshotting _ b
        (omega (
          arith,
          ap (λ c. (taken c).highest) e,
          max_below-put-le max_of shard_count j s.shards shard',
          max_below-le-put max_of shard_count j s.shards shard',
          term-le-max_below shard_count j (λ i. max_of (s.shards i)) l,
        ))
        (emptied_next threads hash (λ v. v.max_response_time) j s.shards shard' refl
          (λ i h. b.no_peaks i (rw e h)))
  Step-Peaked {s} x b (resumed k e) = record {
    above = omega arith;
    below = omega (
      arith,
      max_below-le shard_count 0 (λ j. (s.shards j).max_response_time)
          (λ j h. omega (arith, b.no_peaks j (rw e h))),
    );
    seen = λ t l.
        omega (arith, active-seen (s.pc t) (x.quiet t l (rw e (shard_of-lt threads hash t))));
    no_peaks = λ j h. absurd (omega arith);
  }

  init-Peaked : Peaked init
  init-Peaked = record {
    above = omega arith;
    below = omega (arith, max_below-le shard_count 0 (λ j. 0) (λ j h. omega arith));
    seen = λ t l. omega arith;
    no_peaks = λ j h. refl;
  }

  pub Reach-Peaked : {s : ResponseTimes} → Reach threads hash s → Peaked s
  Reach-Peaked begin = init-Peaked
  Reach-Peaked (next r step) = Step-Peaked (Reach-Excluded threads hash r) (Reach-Peaked r) step
