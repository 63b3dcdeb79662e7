-- ===== src/Stat/ResponseTime/Exclusion/Steps.antt =====
-- Each step keeps the writers counted and the exclusion.
use pinpoint_cpp_agent.Common.{
  ℕ, ◌≤◌, ◌<◌, ◌≡◌, ◌≢◌, refl, sym, ap, ◌∙◌, true, arith, ◌==◌, if◌then◌else◌, Bool-cases, inl, inr,
  put, put_self, put_other, sum_below, sum_below_zero, Bool,
}
use pinpoint_cpp_agent.Stat.ResponseTime.{
  Shard, Pc, ResponseTimes, init, shard_of, Move, Step, moved, paused, saw_no_writer, began,
  took_count, took_total, took_max, resumed, Reach, begin, next,
}
use pinpoint_cpp_agent.Stat.ResponseTime.Exclusion.{
  inside, active, active-le-inside, Move-writers, Move-active, is_collecting, quiet_shards,
  quiet-collecting, writes, Excluded, inside-le-writers, sum_below-put, CountedWriters,
}

module _ (threads : ℕ) (hash : ℕ → ℕ) where
  pub Move-counted :
      {flag : Bool} (s : ResponseTimes) (t : ℕ) (p p' : Pc) (shard' : Shard) (j : ℕ)
      → CountedWriters threads hash s
      → t < threads
      → s.pc t ≡ p
      → Move flag (s.shards (shard_of threads hash t)) p p' shard'
      → (put s.shards (shard_of threads hash t) shard' j).writers
        ≡ sum_below threads (writes threads hash (put s.pc t p') j)
  Move-counted s t p p' shard' j x l e m = elim (Bool-cases (shard_of threads hash t == j)) [
    | inl same ↦
        let j_same : shard_of threads hash t ≡ j = ground arith in
        let writers' = ap (λ v. v.writers) (put_self s.shards (shard_of threads hash t) shard') in
        let now = sum_below-put threads hash s.pc (shard_of threads hash t) t p' l in
        let k = shard_of threads hash t in
        let refl_test : (k == k) ≡ true = ground arith in
        let before : writes threads hash s.pc k t ≡ inside p = rw (refl_test, e) refl in
        let after : (if k == k then inside p' else 0) ≡ inside p' = rw refl_test refl in
        let room : inside p ≤ (s.shards k).writers =
          rw (← e) (inside-le-writers threads hash s t x l) in
        rw (← j_same) (omega (arith, writers', now, before, after, room, x k, Move-writers room m))
    | inr other ↦
        let apart : j ≢ shard_of threads hash t = ground arith in
        let now = sum_below-put threads hash s.pc j t p' l in
        let before : writes threads hash s.pc j t ≡ 0 = rw other refl in
        let after : (if shard_of threads hash t == j then inside p' else 0) ≡ 0 = rw other refl in
        rw (put_other s.shards (shard_of threads hash t) j shard' apart)
          (omega (arith, now, before, after, x j))
  ]

  Move-quiet :
      (s : ResponseTimes) (t : ℕ) (p p' : Pc) (shard' : Shard) (u : ℕ)
      → Excluded threads hash s
      → t < threads
      → s.pc t ≡ p
      → Move s.snapshotting (s.shards (shard_of threads hash t)) p p' shard'
      → u < threads
      → shard_of threads hash u < quiet_shards s.collector
      → active (put s.pc t p' u) ≡ 0
  Move-quiet s t p p' shard' u x l e m k q = elim (Bool-cases (u == t)) [
    | inl same ↦
        let u_same : u ≡ t = ground arith in
        let quiet_before : active p ≡ 0 = rw (← e, ← u_same) (x.quiet u k q) in
        let flag = x.flag_set ∙ quiet-collecting (shard_of threads hash u) s.collector q in
        rw (u_same, put_self s.pc t p') (Move-active flag m quiet_before)
    | inr other ↦
        let apart : u ≢ t = ground arith in rw (put_other s.pc t u p' apart) (x.quiet u k q)
  ]

  -- The operations of a collection leave the writers of a shard.
  pub put-writers :
      (shards : ℕ → Shard) (j : ℕ) (shard' : Shard) (i : ℕ)
      → shard'.writers ≡ (shards j).writers
      → (put shards j shard' i).writers ≡ (shards i).writers
  put-writers shards j shard' i h = elim (Bool-cases (i == j)) [
    | inl same ↦ let i_same : i ≡ j = ground arith in rw (i_same, put_self shards j shard') h
    | inr other ↦ let apart : i ≢ j = ground arith in rw (put_other shards j i shard' apart) refl
  ]

  writers-quiet :
      (s : ResponseTimes) (u : ℕ)
      → Excluded threads hash s
      → u < threads
      → (s.shards (shard_of threads hash u)).writers ≡ 0
      → active (s.pc u) ≡ 0
  writers-quiet s u x l h =
      omega
        (arith, inside-le-writers threads hash s u x.counted_writers l, active-le-inside (s.pc u))

  Step-Excluded :
      {s t : ResponseTimes}
      → Excluded threads hash s
      → Step threads hash s t
      → Excluded threads hash t
  Step-Excluded {s} x (moved t p p' shard' l e m) = record {
    counted_writers = λ j. Move-counted s t p p' shard' j x.counted_writers l e m;
    flag_set = x.flag_set;
    quiet = λ u. Move-quiet s t p p' shard' u x l e m;
  }
  Step-Excluded {s} x (paused e) = record {
    counted_writers = x.counted_writers;
    flag_set = refl;
    quiet = λ u k q. absurd (omega arith);
  }
  Step-Excluded {s} x (saw_no_writer j e l z) = record {
    counted_writers = x.counted_writers;
    flag_set = x.flag_set ∙ ap is_collecting e;
    quiet = λ u k q. elim (Bool-cases (shard_of threads hash u == j)) [
      | inl same ↦
          let u_same : shard_of threads hash u ≡ j = ground arith in
          writers-quiet s u x k (rw u_same z)
      | inr other ↦
          let below : shard_of threads hash u < j = ground arith in x.quiet u k (rw e below)
    ];
  }
  Step-Excluded {s} x (began e) = record {
    counted_writers = x.counted_writers;
    flag_set = x.flag_set ∙ ap is_collecting e;
    quiet = λ u k q. x.quiet u k (rw e q);
  }
  Step-Excluded {s} x (took_count j k e l) = record {
    counted_writers = λ i. put-writers s.shards j _ i refl ∙ x.counted_writers i;
    flag_set = x.flag_set ∙ ap is_collecting e;
    quiet = λ u h q. x.quiet u h (rw e q);
  }
  Step-Excluded {s} x (took_total j k e l) = record {
    counted_writers = λ i. put-writers s.shards j _ i refl ∙ x.counted_writers i;
    flag_set = x.flag_set ∙ ap is_collecting e;
    quiet = λ u h q. x.quiet u h (rw e q);
  }
  Step-Excluded {s} x (took_max j k e l) = record {
    counted_writers = λ i. put-writers s.shards j _ i refl ∙ x.counted_writers i;
    flag_set = x.flag_set ∙ ap is_collecting e;
    quiet = λ u h q. x.quiet u h (rw e q);
  }
  Step-Excluded {s} x (resumed k e) = record {
    counted_writers = x.counted_writers;
    flag_set = refl;
    quiet = λ u h q. absurd (omega arith);
  }

  pub init-counted : CountedWriters threads hash init
  init-counted = λ j. sym (
      sum_below_zero threads (writes threads hash init.pc j) (λ t l.
        elim (Bool-cases (shard_of threads hash t == j)) [
          | inl same ↦ rw same refl
          | inr other ↦ rw other refl
        ]))

  init-Excluded : Excluded threads hash init
  init-Excluded = record { counted_writers = init-counted; flag_set = refl; quiet = λ u k q. refl }

  -- When all atomic operations take effect in one order (the memory orders of the code allow
  -- other executions): in each state that the steps reach, every shard counts the threads that are between their
  -- registration as a writer and its end, the flag is set from the start of a collection to its
  -- end, and a thread whose shard the collection has seen without a writer is not between its
  -- second check of the flag and its exit.
  pub Reach-Excluded : {s : ResponseTimes} → Reach threads hash s → Excluded threads hash s
  Reach-Excluded begin = init-Excluded
  Reach-Excluded (next r step) = Step-Excluded (Reach-Excluded r) step
