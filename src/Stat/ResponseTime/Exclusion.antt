-- ===== src/Stat/ResponseTime/Exclusion.antt =====
-- While response times are collected, no thread is between its check of the flag and its exit.
pub mod Steps
pub mod Weak
use mathlib.Core.Path.{subst}
use pinpoint_cpp_agent.Common.{
  ℕ, zero, suc, ◌+◌, ◌-◌, ◌%◌, ◌≤◌, ◌<◌, ◌≡◌, ◌≢◌, refl, sym, ap, ◌∙◌, Bool, true, false, List,
  arith, ◌==◌, if◌then◌else◌, Bool-cases, inl, inr, put, put_self, put_other, sum_below,
  sum_below_same, sum_below_change, sum_below_zero, term-le-sum_below,
}
use pinpoint_cpp_agent.Stat.ResponseTime.{
  Shard, Pc, idle, spinning, clear, entered, backing, adding, counting, loading, raising, leaving,
  Collector, free, pausing, taking_count, taking_total, taking_max, Taken, ResponseTimes, init,
  shard_count, shard_of, Move, called, saw_clear, entered_shard, went_on, turned_back, left_again,
  added, counted, loaded, missed, raised, high_enough, left, Step, moved, paused, saw_no_writer,
  began, took_count, took_total, took_max, resumed, Reach, begin, next,
}

-- counted among the writers of its shard
abbrev pub inside : Pc → ℕ
inside idle = 0
inside (spinning rt) = 0
inside (clear rt) = 0
inside _ = 1

-- past the second load of the flag
abbrev pub active : Pc → ℕ
active idle = 0
active (spinning rt) = 0
active (clear rt) = 0
active (entered rt) = 0
active (backing rt) = 0
active _ = 1

pub active-le-inside : (p : Pc) → active p ≤ inside p
active-le-inside idle = omega arith
active-le-inside (spinning rt) = omega arith
active-le-inside (clear rt) = omega arith
active-le-inside (entered rt) = omega arith
active-le-inside (backing rt) = omega arith
active-le-inside (adding rt) = omega arith
active-le-inside (counting rt) = omega arith
active-le-inside (loading rt) = omega arith
active-le-inside (raising rt m) = omega arith
active-le-inside (leaving rt) = omega arith

pub Move-writers :
    {flag : Bool} {shard shard' : Shard} {p p' : Pc}
    → inside p ≤ shard.writers
    → Move flag shard p p' shard'
    → shard'.writers + inside p ≡ shard.writers + inside p'
Move-writers h (called rt) = omega arith
Move-writers h (saw_clear rt e) = omega arith
Move-writers h (entered_shard rt) = omega arith
Move-writers h (went_on rt e) = omega arith
Move-writers h (turned_back rt e) = omega arith
Move-writers h (left_again rt) = omega arith
Move-writers h (added rt) = omega arith
Move-writers h (counted rt) = omega arith
Move-writers h (loaded rt) = omega arith
Move-writers h (missed rt m l) = omega arith
Move-writers h (raised rt m l e) = omega arith
Move-writers h (high_enough rt m l) = omega arith
Move-writers h (left rt) = omega arith

-- A thread gets past the second load only while the flag is not set.
pub Move-active :
    {flag : Bool} {shard shard' : Shard} {p p' : Pc}
    → flag ≡ true
    → Move flag shard p p' shard'
    → active p ≡ 0
    → active p' ≡ 0
Move-active f (called rt) h = refl
Move-active f (saw_clear rt e) h = refl
Move-active f (entered_shard rt) h = refl
Move-active f (went_on rt e) h = cc
Move-active f (turned_back rt e) h = refl
Move-active f (left_again rt) h = refl
Move-active f (added rt) h = h
Move-active f (counted rt) h = h
Move-active f (loaded rt) h = h
Move-active f (missed rt m l) h = h
Move-active f (raised rt m l e) h = h
Move-active f (high_enough rt m l) h = h
Move-active f (left rt) h = refl

abbrev pub is_collecting : Collector → Bool
is_collecting free = false
is_collecting (pausing j) = true
is_collecting (taking_count j k) = true
is_collecting (taking_total j k) = true
is_collecting (taking_max j k) = true

-- the shards seen without a writer
abbrev pub quiet_shards : Collector → ℕ
quiet_shards free = 0
quiet_shards (pausing j) = j
quiet_shards (taking_count j k) = shard_count
quiet_shards (taking_total j k) = shard_count
quiet_shards (taking_max j k) = shard_count

pub quiet-collecting :
    (j : ℕ) (collector : Collector) → j < quiet_shards collector → is_collecting collector ≡ true
quiet-collecting j free h = absurd (omega arith)
quiet-collecting j (pausing i) h = refl
quiet-collecting j (taking_count i k) h = refl
quiet-collecting j (taking_total i k) h = refl
quiet-collecting j (taking_max i k) h = refl

module _ (threads : ℕ) (hash : ℕ → ℕ) where
  -- 1 if the thread is a writer of the shard `j`
  abbrev pub writes : (ℕ → Pc) → ℕ → ℕ → ℕ
  writes pc j t = if shard_of threads hash t == j then inside (pc t) else 0

  -- each shard counts the threads that are registered with it
  abbrev pub CountedWriters : ResponseTimes → Type 0
  CountedWriters s = (j : ℕ) → (s.shards j).writers ≡ sum_below threads (writes s.pc j)

  pub record Excluded (s : ResponseTimes) : Type 0 where
    pub counted_writers : CountedWriters s
    pub flag_set : s.snapshotting ≡ is_collecting s.collector
    pub quiet :
        (t : ℕ)
        → t < threads
        → shard_of threads hash t < quiet_shards s.collector
        → active (s.pc t) ≡ 0

  pub inside-le-writers :
      (s : ResponseTimes) (t : ℕ)
      → CountedWriters s
      → t < threads
      → inside (s.pc t) ≤ (s.shards (shard_of threads hash t)).writers
  inside-le-writers s t x l =
      let k = shard_of threads hash t in
      let here : writes s.pc k t ≡ inside (s.pc t) =
        let e : (k == k) ≡ true = ground arith in rw e refl in
      omega (arith, here, x k, term-le-sum_below threads t (writes s.pc k) l)

  -- The writers of a shard change with a thread's place.
  pub sum_below-put :
      (pc : ℕ → Pc) (j t : ℕ) (p' : Pc)
      → t < threads
      → sum_below threads (writes (put pc t p') j) + writes pc j t
        ≡ sum_below threads (writes pc j) + (if shard_of threads hash t == j then inside p' else 0)
  sum_below-put pc j t p' l =
      let same : writes (put pc t p') j t
          ≡ (if shard_of threads hash t == j then inside p' else 0) =
        rw (put_self pc t p') refl in
      let rest =
        sum_below_change threads t (writes pc j) (writes (put pc t p') j) l
          (λ u n. rw (put_other pc t u p' n) refl) in
      rest ∙ ap (λ x. sum_below threads (writes pc j) + x) same
