-- ===== src/Stat/ResponseTime/Exclusion/Weak.antt =====
-- What holds of the writers and of the collection under the memory orders of the code as well.
use pinpoint_cpp_agent.Common.{ℕ, ◌≤◌, ◌<◌, refl, ◌∙◌, arith}
use pinpoint_cpp_agent.Stat.ResponseTime.{
  shard_count, Collector, free, pausing, taking_count, taking_total, taking_max, ResponseTimes,
  Step, moved, paused, saw_no_writer, began, took_count, took_total, took_max, resumed, ordered,
  stale_flag, stale_writers, WeakReach, weak_begin, weak_next, Reach, begin, next,
}
use pinpoint_cpp_agent.Stat.ResponseTime.Exclusion.{CountedWriters}
use pinpoint_cpp_agent.Stat.ResponseTime.Exclusion.Steps.{Move-counted, put-writers, init-counted}

-- the collection is at a shard that exists
abbrev pub AtShard : Collector → Type 0
AtShard free = Unit
AtShard (pausing j) = j ≤ shard_count
AtShard (taking_count j k) = j ≤ shard_count
AtShard (taking_total j k) = j < shard_count
AtShard (taking_max j k) = j < shard_count

module _ (threads : ℕ) (hash : ℕ → ℕ) where
  Step-counted :
      {s t : ResponseTimes}
      → CountedWriters threads hash s
      → Step threads hash s t
      → CountedWriters threads hash t
  Step-counted {s} x (moved t p p' shard' l e m) =
      λ j. Move-counted threads hash s t p p' shard' j x l e m
  Step-counted x (paused e) = x
  Step-counted x (saw_no_writer j e l z) = x
  Step-counted x (began e) = x
  Step-counted {s} x (took_count j k e l) = λ i. put-writers threads hash s.shards j _ i refl ∙ x i
  Step-counted {s} x (took_total j k e l) = λ i. put-writers threads hash s.shards j _ i refl ∙ x i
  Step-counted {s} x (took_max j k e l) = λ i. put-writers threads hash s.shards j _ i refl ∙ x i
  Step-counted x (resumed k e) = x

  pub WeakReach-counted :
      {s : ResponseTimes} → WeakReach threads hash s → CountedWriters threads hash s
  WeakReach-counted weak_begin = init-counted threads hash
  WeakReach-counted (weak_next r (ordered step)) = Step-counted (WeakReach-counted r) step
  WeakReach-counted (weak_next {s} r (stale_flag t p p' shard' l e m)) =
      let x = WeakReach-counted r in λ j. Move-counted threads hash s t p p' shard' j x l e m
  WeakReach-counted (weak_next r (stale_writers j e l)) = WeakReach-counted r

  pub WeakReach-AtShard : {s : ResponseTimes} → WeakReach threads hash s → AtShard s.collector
  WeakReach-AtShard weak_begin = tt
  WeakReach-AtShard (weak_next r (ordered (moved t p p' shard' l e m))) = WeakReach-AtShard r
  WeakReach-AtShard (weak_next r (stale_flag t p p' shard' l e m)) = WeakReach-AtShard r
  WeakReach-AtShard (weak_next r (stale_writers j e l)) = l
  WeakReach-AtShard (weak_next r (ordered (paused e))) = omega arith
  WeakReach-AtShard (weak_next r (ordered (saw_no_writer j e l z))) = l
  WeakReach-AtShard (weak_next r (ordered (began e))) = omega arith
  WeakReach-AtShard (weak_next r (ordered (took_count j k e l))) = l
  WeakReach-AtShard (weak_next r (ordered (took_total j k e l))) = l
  WeakReach-AtShard (weak_next r (ordered (took_max j k e l))) = l
  WeakReach-AtShard (weak_next r (ordered (resumed k e))) = tt

  pub Reach-WeakReach : {s : ResponseTimes} → Reach threads hash s → WeakReach threads hash s
  Reach-WeakReach begin = weak_begin
  Reach-WeakReach (next r step) = weak_next (Reach-WeakReach r) (ordered step)
