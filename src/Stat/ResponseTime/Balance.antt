-- ===== src/Stat/ResponseTime/Balance.antt =====
-- What the shards, the collection and the calls under way hold adds up, at each step.
use pinpoint_cpp_agent.Common.{
  ℕ, suc, ◌+◌, ◌≤◌, ◌<◌, ◌≡◌, refl, ap, ◌∙◌, length, arith, put, sum_below, sum_below_zero,
  sum_below-put, put-holds,
}
use pinpoint_cpp_agent.Stat.ResponseTime.{
  Shard, Pc, Collector, ResponseTimes, init, shard_count, shard_of, Move, finish, Step, moved,
  paused, saw_no_writer, began, took_count, took_total, took_max, resumed, Reach, begin, next,
}
use pinpoint_cpp_agent.Stat.ResponseTime.Exclusion.{active, Excluded}
use pinpoint_cpp_agent.Stat.ResponseTime.Exclusion.Steps.{Reach-Excluded}
use pinpoint_cpp_agent.Stat.ResponseTime.Totals.{
  total_of, added_time, added_request, taken, emptied_counts, emptied_times, Move-times,
  Move-requests, SameValues, Move-SameValues, active-added_time, active-added_request,
  emptied-quiet, emptied_times-le,
}

module _ (threads : ℕ) (hash : ℕ → ℕ) where
  pub record Balanced (s : ResponseTimes) : Type 0 where
    pub times :
        sum_below shard_count (λ j. (s.shards j).acc_response_time) + (taken s.collector).total
        ≡ total_of s.finished + sum_below threads (λ t. added_time (s.pc t))
    pub requests :
        sum_below shard_count (λ j. (s.shards j).request_count) + (taken s.collector).count
        ≡ length s.finished + sum_below threads (λ t. added_request (s.pc t))
    pub no_counts : (j : ℕ) → j < emptied_counts s.collector → (s.shards j).request_count ≡ 0
    pub no_times : (j : ℕ) → j < emptied_times s.collector → (s.shards j).acc_response_time ≡ 0

  pub shard_of-lt : (t : ℕ) → shard_of threads hash t < shard_count
  shard_of-lt t = omega arith

  -- What a shard has lost stays lost while the threads move.
  pub moved-zero :
      (s : ResponseTimes) (size : Shard → ℕ) (emptied : Collector → ℕ) (t : ℕ) (p p' : Pc)
      (shard' : Shard)
      → Excluded threads hash s
      → t < threads
      → s.pc t ≡ p
      → Move s.snapshotting (s.shards (shard_of threads hash t)) p p' shard'
      → (SameValues shard' (s.shards (shard_of threads hash t))
          → size shard' ≡ size (s.shards (shard_of threads hash t)))
      → emptied s.collector ≤ emptied_counts s.collector
      → ((j : ℕ) → j < emptied s.collector → size (s.shards j) ≡ 0)
      → (j : ℕ) → j < emptied s.collector
      → size (put s.shards (shard_of threads hash t) shard' j) ≡ 0
  moved-zero s size emptied t p p' shard' x l e m same less zeros =
      let k = shard_of threads hash t in
      put-holds (λ shard. size shard ≡ 0) (emptied s.collector) k s.shards shard'
        (λ j h n. zeros j h)
        (λ h.
          let q = emptied-quiet k k s.collector (omega arith) (shard_of-lt t) in
          let quiet : active p ≡ 0 = rw (← e) (x.quiet t l q) in
          same (Move-SameValues quiet m) ∙ zeros k h)

  moved-Balanced :
      (s : ResponseTimes) (t : ℕ) (p p' : Pc) (shard' : Shard)
      → Excluded threads hash s
      → Balanced s
      → t < threads
      → s.pc t ≡ p
      → Move s.snapshotting (s.shards (shard_of threads hash t)) p p' shard'
      → Balanced (record s {
        shards = put s.shards (shard_of threads hash t) shard';
        pc = put s.pc t p';
        finished = finish p s.finished;
      })
  moved-Balanced s t p p' shard' x b l e m =
      let k = shard_of threads hash t in
      record {
        times =
            let shards =
              sum_below-put (λ v. v.acc_response_time) shard_count k s.shards shard'
                (shard_of-lt t) in
            let calls = sum_below-put added_time threads t s.pc p' l in
            omega (arith, shards, calls, ap added_time e, b.times, Move-times s.finished m);
        requests =
            let shards =
              sum_below-put (λ v. v.request_count) shard_count k s.shards shard' (shard_of-lt t) in
            let calls = sum_below-put added_request threads t s.pc p' l in
            omega
              (arith, shards, calls, ap added_request e, b.requests, Move-requests s.finished m);
        no_counts =
            moved-zero s (λ v. v.request_count) emptied_counts t p p' shard' x l e m (λ v. v.0)
              (omega arith) b.no_counts;
        no_times =
            moved-zero s (λ v. v.acc_response_time) emptied_times t p p' shard' x l e m (λ v. v.1)
              (emptied_times-le s.collector) b.no_times;
      }

  -- The next shard without a value of `size`.
  pub emptied_next :
      (size : Shard → ℕ) (j : ℕ) (shards : ℕ → Shard) (shard' : Shard)
      → size shard' ≡ 0
      → ((i : ℕ) → i < j → size (shards i) ≡ 0)
      → (i : ℕ) → i < suc j
      → size (put shards j shard' i) ≡ 0
  emptied_next size j shards shard' z zeros =
      put-holds (λ shard. size shard ≡ 0) (suc j) j shards shard' (λ i h n. zeros i (ground arith))
        (λ h. z)

  pub emptied_same :
      (size : Shard → ℕ) (n j : ℕ) (shards : ℕ → Shard) (shard' : Shard)
      → size shard' ≡ size (shards j)
      → ((i : ℕ) → i < n → size (shards i) ≡ 0)
      → (i : ℕ) → i < n
      → size (put shards j shard' i) ≡ 0
  emptied_same size n j shards shard' same zeros =
      put-holds (λ shard. size shard ≡ 0) n j shards shard' (λ i h m. zeros i h)
        (λ h. same ∙ zeros j h)

  Step-Balanced :
      {s t : ResponseTimes}
      → Excluded threads hash s
      → Balanced s
      → Step threads hash s t
      → Balanced t
  Step-Balanced {s} x b (moved t p p' shard' l e m) = moved-Balanced s t p p' shard' x b l e m
  Step-Balanced {s} x b (paused e) = record {
    times = omega (arith, b.times, ap (λ c. (taken c).total) e);
    requests = omega (arith, b.requests, ap (λ c. (taken c).count) e);
    no_counts = λ j h. absurd (omega arith);
    no_times = λ j h. absurd (omega arith);
  }
  Step-Balanced {s} x b (saw_no_writer j e l z) = record {
    times = omega (arith, b.times, ap (λ c. (taken c).total) e);
    requests = omega (arith, b.requests, ap (λ c. (taken c).count) e);
    no_counts = λ j h. absurd (omega arith);
    no_times = λ j h. absurd (omega arith);
  }
  Step-Balanced {s} x b (began e) = record {
    times = omega (arith, b.times, ap (λ c. (taken c).total) e);
    requests = omega (arith, b.requests, ap (λ c. (taken c).count) e);
    no_counts = λ j h. absurd (omega arith);
    no_times = λ j h. absurd (omega arith);
  }
  Step-Balanced {s} x b (took_count j k e l) =
      let shard' = record (s.shards j) { request_count = 0 } in
      record {
        times = omega (
          arith,
          b.times,
          ap (λ c. (taken c).total) e,
          sum_below-put (λ v. v.acc_response_time) shard_count j s.shards shard' l,
        );
        requests = omega (
          arith,
          b.requests,
          ap (λ c. (taken c).count) e,
          sum_below-put (λ v. v.request_count) shard_count j s.shards shard' l,
        );
        no_counts =
            emptied_next (λ v. v.request_count) j s.shards shard' refl
              (λ i h. b.no_counts i (rw e h));
        no_times =
            emptied_same (λ v. v.acc_response_time) j j s.shards shard' refl
              (λ i h. b.no_times i (rw e h));
      }
  Step-Balanced {s} x b (took_total j k e l) =
      let shard' = record (s.shards j) { acc_response_time = 0 } in
      record {
        times = omega (
          arith,
          b.times,
          ap (λ c. (taken c).total) e,
          sum_below-put (λ v. v.acc_response_time) shard_count j s.shards shard' l,
        );
        requests = omega (
          arith,
          b.requests,
          ap (λ c. (taken c).count) e,
          sum_below-put (λ v. v.request_count) shard_count j s.shards shard' l,
        );
        no_counts =
            emptied_same (λ v. v.request_count) (suc j) j s.shards shard' refl
              (λ i h. b.no_counts i (rw e h));
        no_times =
            emptied_next (λ v. v.acc_response_time) j s.shards shard' refl
              (λ i h. b.no_times i (rw e h));
      }
  Step-Balanced {s} x b (took_max j k e l) =
      let shard' = record (s.shards j) { max_response_time = 0 } in
      record {
        times = omega (
          arith,
          b.times,
          ap (λ c. (taken c).total) e,
          sum_below-put (λ v. v.acc_response_time) shard_count j s.shards shard' l,
        );
        requests = omega (
          arith,
          b.requests,
          ap (λ c. (taken c).count) e,
          sum_below-put (λ v. v.request_count) shard_count j s.shards shard' l,
        );
        no_counts =
            emptied_same (λ v. v.request_count) (suc j) j s.shards shard' refl
              (λ i h. b.no_counts i (rw e h));
        no_times =
            emptied_same (λ v. v.acc_response_time) (suc j) j s.shards shard' refl
              (λ i h. b.no_times i (rw e h));
      }
  Step-Balanced {s} x b (resumed k e) =
      let quiet = λ (t : ℕ) (l : t < threads). x.quiet t l (rw e (shard_of-lt t)) in
      let no_calls =
        sum_below_zero threads (λ t. added_time (s.pc t))
          (λ t l. active-added_time (s.pc t) (quiet t l)) in
      let no_requests =
        sum_below_zero threads (λ t. added_request (s.pc t))
          (λ t l. active-added_request (s.pc t) (quiet t l)) in
      record {
        times =
            let empty =
              sum_below_zero shard_count (λ j. (s.shards j).acc_response_time)
                (λ j h. b.no_times j (rw e h)) in
            omega (arith, empty, no_calls);
        requests =
            let empty =
              sum_below_zero shard_count (λ j. (s.shards j).request_count)
                (λ j h. b.no_counts j (rw e h)) in
            omega (arith, empty, no_requests);
        no_counts = λ j h. absurd (omega arith);
        no_times = λ j h. absurd (omega arith);
      }

  init-Balanced : Balanced init
  init-Balanced = record {
    times = omega (
      arith,
      sum_below_zero shard_count (λ j. 0) (λ j h. refl),
      sum_below_zero threads (λ t. 0) (λ t h. refl),
    );
    requests = omega (
      arith,
      sum_below_zero shard_count (λ j. 0) (λ j h. refl),
      sum_below_zero threads (λ t. 0) (λ t h. refl),
    );
    no_counts = λ j h. refl;
    no_times = λ j h. refl;
  }

  pub Reach-Balanced : {s : ResponseTimes} → Reach threads hash s → Balanced s
  Reach-Balanced begin = init-Balanced
  Reach-Balanced (next r step) =
      Step-Balanced (Reach-Excluded threads hash r) (Reach-Balanced r) step
