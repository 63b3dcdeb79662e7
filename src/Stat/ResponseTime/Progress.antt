-- ===== src/Stat/ResponseTime/Progress.antt =====
-- A collection can always be brought to its end.
use pinpoint_cpp_agent.Common.{
  ℕ, zero, suc, ◌+◌, ◌≤◌, ◌<◌, ◌≡◌, ◌==◌, refl, ap, ◌∙◌, ◌-◌, List, ◌∷◌, arith, Bool-cases, inl,
  inr, sum_below_zero,
}
use pinpoint_cpp_agent.Stat.ResponseTime.{
  Collector, free, pausing, taking_count, taking_total, taking_max, Taken, ResponseTimes,
  shard_count, shard_of, Step, paused, saw_no_writer, began, took_count, took_total, took_max,
  resumed, WeakReach,
}
use pinpoint_cpp_agent.Stat.ResponseTime.Exclusion.{inside, writes}
use pinpoint_cpp_agent.Stat.ResponseTime.Exclusion.Weak.{
  AtShard, WeakReach-counted, WeakReach-AtShard,
}
use pinpoint_cpp_agent.Stat.ResponseTime.Settle.{
  Runs, stay, step, Runs_trans, Runs-WeakReach, settle_threads,
}

module _ (threads : ℕ) (hash : ℕ → ℕ) where
  -- A run to a state where no collection is under way, with one more collected.
  abbrev pub CanCollect : ResponseTimes → Type 0
  CanCollect s =
      (s' : ResponseTimes) × Runs threads hash s s'
      × (s'.collector ≡ free)
      × (k : Taken) × (l : List ℕ) × (s'.collected ≡ (k, l) ∷ s.collected)

  step_on :
      {s t : ResponseTimes}
      → Step threads hash s t
      → t.collected ≡ s.collected
      → CanCollect t
      → CanCollect s
  step_on a same (s', runs, f, k, l, e) = (s', step a runs, f, k, l, e ∙ ap (λ x. (k, l) ∷ x) same)

  end_collection :
      (s : ResponseTimes) (k : Taken) → s.collector ≡ taking_count shard_count k → CanCollect s
  end_collection s k e = (_, step (resumed k e) stay, refl, k, s.finished, refl)

  take_shards :
      (n : ℕ) (s : ResponseTimes) (j : ℕ) (k : Taken)
      → j + n ≡ shard_count
      → s.collector ≡ taking_count j k
      → CanCollect s
  take_shards zero s j k h e =
      let last : j ≡ shard_count = omega arith in
      end_collection s k (e ∙ ap (λ i. taking_count i k) last)
  take_shards (suc n) s j k h e = step_on (took_count j k e (omega arith)) refl (
      step_on (took_total j _ refl (omega arith)) refl (
        step_on (took_max j _ refl (omega arith)) refl
          (take_shards n _ (suc j) _ (omega arith) refl)))

  take_from_count :
      (s : ResponseTimes) (j : ℕ) (k : Taken)
      → j ≤ shard_count
      → s.collector ≡ taking_count j k
      → CanCollect s
  take_from_count s j k h e = take_shards (shard_count - j) s j k (omega arith) e

  take_from_max :
      (s : ResponseTimes) (j : ℕ) (k : Taken)
      → j < shard_count
      → s.collector ≡ taking_max j k
      → CanCollect s
  take_from_max s j k h e =
      step_on (took_max j k e h) refl (take_from_count _ (suc j) _ (omega arith) refl)

  scan_shards :
      (n : ℕ) (s : ResponseTimes) (j : ℕ)
      → j + n ≡ shard_count
      → s.collector ≡ pausing j
      → ((i : ℕ) → (s.shards i).writers ≡ 0)
      → CanCollect s
  scan_shards zero s j h e z =
      let last : j ≡ shard_count = omega arith in
      step_on (began (e ∙ ap pausing last)) refl (take_from_count _ 0 _ (omega arith) refl)
  scan_shards (suc n) s j h e z =
      step_on (saw_no_writer j e (omega arith) (z j)) refl
        (scan_shards n _ (suc j) (omega arith) refl z)

  collect_from :
      (s : ResponseTimes) (c : Collector)
      → AtShard c
      → s.collector ≡ c
      → ((i : ℕ) → (s.shards i).writers ≡ 0)
      → CanCollect s
  collect_from s free a e z = step_on (paused e) refl (scan_shards shard_count _ 0 refl refl z)
  collect_from s (pausing j) a e z = scan_shards (shard_count - j) s j (omega arith) e z
  collect_from s (taking_count j k) a e z = take_from_count s j k a e
  collect_from s (taking_total j k) a e z =
      step_on (took_total j k e a) refl (take_from_max _ j _ a refl)
  collect_from s (taking_max j k) a e z = take_from_max s j k a e

  no_writers :
      {s : ResponseTimes} (i : ℕ)
      → WeakReach threads hash s
      → ((u : ℕ) → u < threads → inside (s.pc u) ≡ 0)
      → (s.shards i).writers ≡ 0
  no_writers {s} i r h =
      WeakReach-counted threads hash r i
      ∙ sum_below_zero threads (writes threads hash s.pc i) (λ u l.
        elim (Bool-cases (shard_of threads hash u == i)) [
          | inl e ↦ rw e (h u l)
          | inr m ↦ rw m refl
        ])

  -- From each state that the steps reach, the reads of older values that the memory orders of the
  -- code allow included, there are further steps to the end of a collection: the
  -- threads that are writers can leave their shards, whatever the flag is, and the collection
  -- that is under way, or a new one, then passes all shards and returns.
  pub Reach-CanCollect : {s : ResponseTimes} → WeakReach threads hash s → CanCollect s
  Reach-CanCollect {s} r =
      let (s1, runs, c, d, outside) = settle_threads threads hash s threads (omega arith) in
      let r1 = Runs-WeakReach threads hash r runs in
      let (s2, runs', f, k, l, e) =
        collect_from s1 s1.collector (WeakReach-AtShard threads hash r1) refl
          (λ i. no_writers i r1 outside) in
      (s2, Runs_trans threads hash runs runs', f, k, l, e ∙ ap (λ x. (k, l) ∷ x) d)
