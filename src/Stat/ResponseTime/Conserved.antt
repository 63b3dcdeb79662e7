-- ===== src/Stat/ResponseTime/Conserved.antt =====
-- What is counted over all collections together, under the memory orders of the code as well.
use pinpoint_cpp_agent.Common.{
  ℕ, ◌+◌, ◌<◌, ◌≡◌, refl, ap, Bool, List, [], ◌∷◌, length, arith, put, sum_below, sum_below_zero,
  sum_below-put,
}
use pinpoint_cpp_agent.Stat.ResponseTime.{
  Shard, Pc, Taken, ResponseTimes, init, shard_count, shard_of, Move, finish, Step, moved, paused,
  saw_no_writer, began, took_count, took_total, took_max, resumed, ordered, stale_flag,
  stale_writers, WeakReach, weak_begin, weak_next,
}
use pinpoint_cpp_agent.Stat.ResponseTime.Balance.{shard_of-lt}
use pinpoint_cpp_agent.Stat.ResponseTime.Totals.{
  total_of, added_time, added_request, taken, Move-times, Move-requests,
}

-- What the collections have taken, and what the calls that finished before their ends add up to.
abbrev pub taken_times : List (Taken × List ℕ) → ℕ
taken_times [] = 0
taken_times (c ∷ l) = c.0.total + taken_times l

abbrev pub taken_counts : List (Taken × List ℕ) → ℕ
taken_counts [] = 0
taken_counts (c ∷ l) = c.0.count + taken_counts l

abbrev pub finished_times : List (Taken × List ℕ) → ℕ
finished_times [] = 0
finished_times (c ∷ l) = total_of c.1 + finished_times l

abbrev pub finished_counts : List (Taken × List ℕ) → ℕ
finished_counts [] = 0
finished_counts (c ∷ l) = length c.1 + finished_counts l

module _ (threads : ℕ) (hash : ℕ → ℕ) where
  -- Taken by collections, by the one under way, or still in the shards: what the calls that have
  -- finished and those under way have added.
  pub record Conserved (s : ResponseTimes) : Type 0 where
    pub times :
        taken_times s.collected
          + (taken s.collector).total
          + sum_below shard_count (λ j. (s.shards j).acc_response_time)
        ≡ finished_times s.collected
          + total_of s.finished
          + sum_below threads (λ t. added_time (s.pc t))
    pub counts :
        taken_counts s.collected
          + (taken s.collector).count
          + sum_below shard_count (λ j. (s.shards j).request_count)
        ≡ finished_counts s.collected
          + length s.finished
          + sum_below threads (λ t. added_request (s.pc t))

  moved-Conserved :
      {flag : Bool} (s : ResponseTimes) (t : ℕ) (p p' : Pc) (shard' : Shard)
      → Conserved s
      → t < threads
      → s.pc t ≡ p
      → Move flag (s.shards (shard_of threads hash t)) p p' shard'
      → Conserved (record s {
        shards = put s.shards (shard_of threads hash t) shard';
        pc = put s.pc t p';
        finished = finish p s.finished;
      })
  moved-Conserved s t p p' shard' b l e m =
      let k = shard_of threads hash t in
      let at_shard = shard_of-lt threads hash t in
      record {
        times =
            let shards =
              sum_below-put (λ v. v.acc_response_time) shard_count k s.shards shard' at_shard in
            let calls = sum_below-put added_time threads t s.pc p' l in
            omega (arith, shards, calls, ap added_time e, b.times, Move-times s.finished m);
        counts =
            let shards =
              sum_below-put (λ v. v.request_count) shard_count k s.shards shard' at_shard in
            let calls = sum_below-put added_request threads t s.pc p' l in
            omega (arith, shards, calls, ap added_request e, b.counts, Move-requests s.finished m);
      }

  -- A step of the collection that changes one shard, or none.
  same-Conserved :
      (s t : ResponseTimes)
      → Conserved s
      → t.collected ≡ s.collected
      → t.finished ≡ s.finished
      → t.pc ≡ s.pc
      → (taken t.collector).total + sum_below shard_count (λ j. (t.shards j).acc_response_time)
        ≡ (taken s.collector).total + sum_below shard_count (λ j. (s.shards j).acc_response_time)
      → (taken t.collector).count + sum_below shard_count (λ j. (t.shards j).request_count)
        ≡ (taken s.collector).count + sum_below shard_count (λ j. (s.shards j).request_count)
      → Conserved t
  same-Conserved s t b c f p times counts = record {
    times = rw (c, f, p) (omega (arith, b.times, times));
    counts = rw (c, f, p) (omega (arith, b.counts, counts));
  }

  Step-Conserved : {s t : ResponseTimes} → Conserved s → Step threads hash s t → Conserved t
  Step-Conserved {s} b (moved t p p' shard' l e m) = moved-Conserved s t p p' shard' b l e m
  Step-Conserved {s} b (paused e) =
      same-Conserved s _ b refl refl refl (omega (arith, ap (λ c. (taken c).total) e))
        (omega (arith, ap (λ c. (taken c).count) e))
  Step-Conserved {s} b (saw_no_writer j e l z) =
      same-Conserved s _ b refl refl refl (omega (arith, ap (λ c. (taken c).total) e))
        (omega (arith, ap (λ c. (taken c).count) e))
  Step-Conserved {s} b (began e) =
      same-Conserved s _ b refl refl refl (omega (arith, ap (λ c. (taken c).total) e))
        (omega (arith, ap (λ c. (taken c).count) e))
  Step-Conserved {s} b (took_count j k e l) =
      let shard' = record (s.shards j) { request_count = 0 } in
      same-Conserved s _ b refl refl refl
        (omega (
          arith,
          ap (λ c. (taken c).total) e,
          sum_below-put (λ v. v.acc_response_time) shard_count j s.shards shard' l,
        ))
        (omega (
          arith,
          ap (λ c. (taken c).count) e,
          sum_below-put (λ v. v.request_count) shard_count j s.shards shard' l,
        ))
  Step-Conserved {s} b (took_total j k e l) =
      let shard' = record (s.shards j) { acc_response_time = 0 } in
      same-Conserved s _ b refl refl refl
        (omega (
          arith,
          ap (λ c. (taken c).total) e,
          sum_below-put (λ v. v.acc_response_time) shard_count j s.shards shard' l,
        ))
        (omega (
          arith,
          ap (λ c. (taken c).count) e,
          sum_below-put (λ v. v.request_count) shard_count j s.shards shard' l,
        ))
  Step-Conserved {s} b (took_max j k e l) =
      let shard' = record (s.shards j) { max_response_time = 0 } in
      same-Conserved s _ b refl refl refl
        (omega (
          arith,
          ap (λ c. (taken c).total) e,
          sum_below-put (λ v. v.acc_response_time) shard_count j s.shards shard' l,
        ))
        (omega (
          arith,
          ap (λ c. (taken c).count) e,
          sum_below-put (λ v. v.request_count) shard_count j s.shards shard' l,
        ))
  Step-Conserved {s} b (resumed k e) = record {
    times = omega (arith, b.times, ap (λ c. (taken c).total) e);
    counts = omega (arith, b.counts, ap (λ c. (taken c).count) e);
  }

  init-Conserved : Conserved init
  init-Conserved = record {
    times = omega (
      arith,
      sum_below_zero shard_count (λ j. 0) (λ j h. refl),
      sum_below_zero threads (λ t. 0) (λ t h. refl),
    );
    counts = omega (
      arith,
      sum_below_zero shard_count (λ j. 0) (λ j h. refl),
      sum_below_zero threads (λ t. 0) (λ t h. refl),
    );
  }

  -- However the operations of the threads and of the collections are interleaved, the reads of
  -- older values that the memory orders of the code allow included, as long as the statistics are
  -- not reset: what the collections have
  -- returned or taken and what is in the shards is, in sum and in number, what the calls that
  -- finished and those under way have added. So no response time is lost or taken twice over all
  -- collections, although one collection may take a call's time and another its count.
  pub WeakReach-Conserved : {s : ResponseTimes} → WeakReach threads hash s → Conserved s
  WeakReach-Conserved weak_begin = init-Conserved
  WeakReach-Conserved (weak_next r (ordered step)) = Step-Conserved (WeakReach-Conserved r) step
  WeakReach-Conserved (weak_next {s} r (stale_flag t p p' shard' l e m)) =
      moved-Conserved s t p p' shard' (WeakReach-Conserved r) l e m
  WeakReach-Conserved (weak_next {s} r (stale_writers j e l)) =
      same-Conserved s _ (WeakReach-Conserved r) refl refl refl
        (omega (arith, ap (λ c. (taken c).total) e)) (omega (arith, ap (λ c. (taken c).count) e))
