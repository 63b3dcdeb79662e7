-- ===== src/Stat/ResponseTime/Settle.antt =====
-- A thread that runs alone leaves its shard.
use pinpoint_cpp_agent.Common.{
  ℕ, zero, suc, ◌≤◌, ◌<◌, ◌≡◌, ◌≢◌, refl, sym, ap, ◌∙◌, arith, Bool-cases, inl, inr, put, put_self,
  put_other, ltb, ◌==◌,
}
use pinpoint_cpp_agent.Stat.ResponseTime.{
  Shard, Pc, idle, spinning, clear, entered, backing, adding, counting, loading, raising, leaving,
  ResponseTimes, shard_of, Move, turned_back, left_again, went_on, added, counted, loaded, missed,
  raised, high_enough, left, finish, Step, moved, WeakReach, weak_next, ordered,
}
use pinpoint_cpp_agent.Stat.ResponseTime.Exclusion.{inside}

module _ (threads : ℕ) (hash : ℕ → ℕ) where
  -- Any number of steps.
  pub data Runs : ResponseTimes → ResponseTimes → Type 0 where
    stay : {s : ResponseTimes} → Runs s s
    step : {s t u : ResponseTimes} → Step threads hash s t → Runs t u → Runs s u

  pub Runs_trans : {s t u : ResponseTimes} → Runs s t → Runs t u → Runs s u
  Runs_trans stay r = r
  Runs_trans (step a l) r = step a (Runs_trans l r)

  pub Runs-WeakReach :
      {s t : ResponseTimes} → WeakReach threads hash s → Runs s t → WeakReach threads hash t
  Runs-WeakReach r stay = r
  Runs-WeakReach r (step a l) = Runs-WeakReach (weak_next r (ordered a)) l

  -- The thread `t` has run, has left its shard, and the other threads have not moved.
  pub record Settled (s : ResponseTimes) (t : ℕ) (s' : ResponseTimes) : Type 0 where
    pub runs : Runs s s'
    pub collector_same : s'.collector ≡ s.collector
    pub collected_same : s'.collected ≡ s.collected
    pub others : (u : ℕ) → u ≢ t → s'.pc u ≡ s.pc u
    pub outside : inside (s'.pc t) ≡ 0

  abbrev CanSettle : ResponseTimes → ℕ → Type 0
  CanSettle s t = (s' : ResponseTimes) × Settled s t s'

  abbrev pub after_move : ResponseTimes → ℕ → Pc → Pc → Shard → ResponseTimes
  after_move s t p p' shard' = record s {
    shards = put s.shards (shard_of threads hash t) shard';
    pc = put s.pc t p';
    finished = finish p s.finished;
  }

  -- A move, and then the rest.
  move_on :
      (s : ResponseTimes) (t : ℕ) (p p' : Pc) (shard' : Shard)
      → t < threads
      → s.pc t ≡ p
      → Move s.snapshotting (s.shards (shard_of threads hash t)) p p' shard'
      → ((after_move s t p p' shard').pc t ≡ p' → CanSettle (after_move s t p p' shard') t)
      → CanSettle s t
  move_on s t p p' shard' l e m rest =
      let (s', x) = rest (put_self s.pc t p') in
      (
        s',
        record {
          runs = step (moved t p p' shard' l e m) x.runs;
          collector_same = x.collector_same;
          collected_same = x.collected_same;
          others = λ u n. x.others u n ∙ put_other s.pc t u p' n;
          outside = x.outside;
        },
      )

  settled_already : (s : ResponseTimes) (t : ℕ) → inside (s.pc t) ≡ 0 → CanSettle s t
  settled_already s t h = (
    s,
    record {
      runs = stay;
      collector_same = refl;
      collected_same = refl;
      others = λ u n. refl;
      outside = h;
    },
  )

  settle_leaving :
      (s : ResponseTimes) (t rt : ℕ) → t < threads → s.pc t ≡ leaving rt → CanSettle s t
  settle_leaving s t rt l e =
      move_on s t (leaving rt) idle _ l e (left rt) (λ e'. settled_already _ t (ap inside e'))

  -- With the maximum that the shard has.
  settle_current :
      (s : ResponseTimes) (t rt : ℕ)
      → t < threads
      → s.pc t ≡ raising rt (s.shards (shard_of threads hash t)).max_response_time
      → CanSettle s t
  settle_current s t rt l e =
      let m = (s.shards (shard_of threads hash t)).max_response_time in
      elim (Bool-cases (ltb m rt)) [
        | inl lower ↦
            move_on s t (raising rt m) (leaving rt) _ l e (raised rt m (ground arith) refl)
              (λ e'. settle_leaving _ t rt l e')
        | inr enough ↦
            move_on s t (raising rt m) (leaving rt) _ l e (high_enough rt m (ground arith))
              (λ e'. settle_leaving _ t rt l e')
      ]

  settle_raising :
      (s : ResponseTimes) (t rt m : ℕ) → t < threads → s.pc t ≡ raising rt m → CanSettle s t
  settle_raising s t rt m l e =
      let k = shard_of threads hash t in
      elim (Bool-cases (ltb m rt)) [
        | inl lower ↦
            move_on s t (raising rt m) (raising rt (s.shards k).max_response_time) _ l e
              (missed rt m (ground arith))
              (λ e'. settle_current _ t rt l (
                e'
                ∙ ap (λ v. raising rt v.max_response_time)
                    (sym (put_self s.shards k (s.shards k)))))
        | inr enough ↦
            move_on s t (raising rt m) (leaving rt) _ l e (high_enough rt m (ground arith))
              (λ e'. settle_leaving _ t rt l e')
      ]

  settle_loading :
      (s : ResponseTimes) (t rt : ℕ) → t < threads → s.pc t ≡ loading rt → CanSettle s t
  settle_loading s t rt l e =
      move_on s t (loading rt) _ _ l e (loaded rt) (λ e'. settle_raising _ t rt _ l e')

  settle_counting :
      (s : ResponseTimes) (t rt : ℕ) → t < threads → s.pc t ≡ counting rt → CanSettle s t
  settle_counting s t rt l e =
      move_on s t (counting rt) _ _ l e (counted rt) (λ e'. settle_loading _ t rt l e')

  settle_adding : (s : ResponseTimes) (t rt : ℕ) → t < threads → s.pc t ≡ adding rt → CanSettle s t
  settle_adding s t rt l e =
      move_on s t (adding rt) _ _ l e (added rt) (λ e'. settle_counting _ t rt l e')

  settle_backing :
      (s : ResponseTimes) (t rt : ℕ) → t < threads → s.pc t ≡ backing rt → CanSettle s t
  settle_backing s t rt l e =
      move_on s t (backing rt) _ _ l e (left_again rt) (λ e'. settled_already _ t (ap inside e'))

  settle_entered :
      (s : ResponseTimes) (t rt : ℕ) → t < threads → s.pc t ≡ entered rt → CanSettle s t
  settle_entered s t rt l e = elim (Bool-cases s.snapshotting) [
    | inl flag ↦
        move_on s t (entered rt) _ _ l e (turned_back rt flag) (λ e'. settle_backing _ t rt l e')
    | inr clear_flag ↦
        move_on s t (entered rt) _ _ l e (went_on rt clear_flag) (λ e'. settle_adding _ t rt l e')
  ]

  settle_at : (s : ResponseTimes) (t : ℕ) (p : Pc) → t < threads → s.pc t ≡ p → CanSettle s t
  settle_at s t idle l e = settled_already s t (ap inside e)
  settle_at s t (spinning rt) l e = settled_already s t (ap inside e)
  settle_at s t (clear rt) l e = settled_already s t (ap inside e)
  settle_at s t (entered rt) l e = settle_entered s t rt l e
  settle_at s t (backing rt) l e = settle_backing s t rt l e
  settle_at s t (adding rt) l e = settle_adding s t rt l e
  settle_at s t (counting rt) l e = settle_counting s t rt l e
  settle_at s t (loading rt) l e = settle_loading s t rt l e
  settle_at s t (raising rt m) l e = settle_raising s t rt m l e
  settle_at s t (leaving rt) l e = settle_leaving s t rt l e

  -- The first threads, one after the other.
  pub settle_threads :
      (s : ResponseTimes) (n : ℕ)
      → n ≤ threads
      → (s' : ResponseTimes) × Runs s s'
        × (s'.collector ≡ s.collector)
        × (s'.collected ≡ s.collected)
        × ((u : ℕ) → u < n → inside (s'.pc u) ≡ 0)
  settle_threads s zero h = (s, stay, refl, refl, λ u l. absurd (omega arith))
  settle_threads s (suc n) h =
      let (s1, runs, c, d, outside) = settle_threads s n (omega arith) in
      let (s2, x) = settle_at s1 n (s1.pc n) (omega arith) refl in
      (
        s2,
        Runs_trans runs x.runs,
        x.collector_same ∙ c,
        x.collected_same ∙ d,
        λ u l. elim (Bool-cases (u == n)) [
          | inl e ↦ let same : u ≡ n = ground arith in rw same x.outside
          | inr m ↦
              let other : u ≢ n = ground arith in rw (x.others u other) (outside u (ground arith))
        ],
      )
