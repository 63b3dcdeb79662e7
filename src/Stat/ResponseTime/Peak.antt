-- ===== src/Stat/ResponseTime/Peak.antt =====
-- The maximum of the shards and the collection against the calls that have finished.
pub mod Steps
use pinpoint_cpp_agent.Common.{
  ℕ, zero, suc, ◌+◌, ◌-◌, ◌%◌, ◌≤◌, ◌<◌, ◌≡◌, ◌≢◌, refl, sym, ap, ◌∙◌, Bool, true, false, List, [],
  ◌∷◌, length, arith, max, ◌==◌, Bool-cases, inl, inr, put, put_self, put_other, max_below,
  term-le-max_below, max_below-le, put-holds,
}
use pinpoint_cpp_agent.Stat.ResponseTime.{
  Shard, Pc, idle, spinning, clear, entered, backing, adding, counting, loading, raising, leaving,
  Collector, free, pausing, taking_count, taking_total, taking_max, Taken, ResponseTimes, init,
  shard_count, shard_of, Move, called, saw_clear, entered_shard, went_on, turned_back, left_again,
  added, counted, loaded, missed, raised, high_enough, left, finish, Step, moved, paused,
  saw_no_writer, began, took_count, took_total, took_max, resumed, Reach, begin, next,
}
use pinpoint_cpp_agent.Stat.ResponseTime.Exclusion.{
  active, is_collecting, quiet_shards, quiet-collecting, Excluded,
}
use pinpoint_cpp_agent.Stat.ResponseTime.Exclusion.Steps.{Reach-Excluded}
use pinpoint_cpp_agent.Stat.ResponseTime.Totals.{taken, emptied_peaks, emptied_peaks-le}
use pinpoint_cpp_agent.Stat.ResponseTime.Balance.{moved-zero, emptied_next, emptied_same}

abbrev pub maximum_of : List ℕ → ℕ
maximum_of [] = 0
maximum_of (rt ∷ l) = max rt (maximum_of l)

-- the response time of a call that has only to leave
abbrev pub leaving_time : Pc → ℕ
leaving_time (leaving rt) = rt
leaving_time _ = 0

-- a maximum that the call has seen or made
abbrev pub seen_max : Pc → ℕ
seen_max (raising rt m) = m
seen_max (leaving rt) = rt
seen_max _ = 0

-- the maximum of the shards and of what a collection has taken
abbrev pub peak : ResponseTimes → ℕ
peak s =
    max (taken s.collector).highest (max_below shard_count (λ j. (s.shards j).max_response_time))

pub Move-max :
    {flag : Bool} {shard shard' : Shard} {p p' : Pc}
    → Move flag shard p p' shard'
    → shard.max_response_time ≤ shard'.max_response_time
Move-max (called rt) = omega arith
Move-max (saw_clear rt e) = omega arith
Move-max (entered_shard rt) = omega arith
Move-max (went_on rt e) = omega arith
Move-max (turned_back rt e) = omega arith
Move-max (left_again rt) = omega arith
Move-max (added rt) = omega arith
Move-max (counted rt) = omega arith
Move-max (loaded rt) = omega arith
Move-max (missed rt m h) = omega arith
Move-max (raised rt m h e) = omega arith
Move-max (high_enough rt m h) = omega arith
Move-max (left rt) = omega arith

-- A maximum is raised to the time of a call that then has only to leave.
pub Move-max-le :
    {flag : Bool} {shard shard' : Shard} {p p' : Pc}
    → Move flag shard p p' shard'
    → shard'.max_response_time ≤ max shard.max_response_time (leaving_time p')
Move-max-le (called rt) = omega arith
Move-max-le (saw_clear rt e) = omega arith
Move-max-le (entered_shard rt) = omega arith
Move-max-le (went_on rt e) = omega arith
Move-max-le (turned_back rt e) = omega arith
Move-max-le (left_again rt) = omega arith
Move-max-le (added rt) = omega arith
Move-max-le (counted rt) = omega arith
Move-max-le (loaded rt) = omega arith
Move-max-le (missed rt m h) = omega arith
Move-max-le (raised rt m h e) = omega arith
Move-max-le (high_enough rt m h) = omega arith
Move-max-le (left rt) = omega arith

-- What a call has seen is below the maximum of its shard, or was before.
pub Move-seen :
    {flag : Bool} {shard shard' : Shard} {p p' : Pc}
    → Move flag shard p p' shard'
    → seen_max p' ≤ max shard'.max_response_time (seen_max p)
Move-seen (called rt) = omega arith
Move-seen (saw_clear rt e) = omega arith
Move-seen (entered_shard rt) = omega arith
Move-seen (went_on rt e) = omega arith
Move-seen (turned_back rt e) = omega arith
Move-seen (left_again rt) = omega arith
Move-seen (added rt) = omega arith
Move-seen (counted rt) = omega arith
Move-seen (loaded rt) = omega arith
Move-seen (missed rt m h) = omega arith
Move-seen (raised rt m h e) = omega arith
Move-seen (high_enough rt m h) = omega arith
Move-seen (left rt) = omega arith

pub Move-finish :
    {flag : Bool} {shard shard' : Shard} {p p' : Pc} (l : List ℕ)
    → Move flag shard p p' shard'
    → maximum_of (finish p l) ≡ max (leaving_time p) (maximum_of l)
Move-finish l (called rt) = omega arith
Move-finish l (saw_clear rt e) = omega arith
Move-finish l (entered_shard rt) = omega arith
Move-finish l (went_on rt e) = omega arith
Move-finish l (turned_back rt e) = omega arith
Move-finish l (left_again rt) = omega arith
Move-finish l (added rt) = omega arith
Move-finish l (counted rt) = omega arith
Move-finish l (loaded rt) = omega arith
Move-finish l (missed rt m h) = omega arith
Move-finish l (raised rt m h e) = omega arith
Move-finish l (high_enough rt m h) = omega arith
Move-finish l (left rt) = omega arith

pub leaving-le-seen : (p : Pc) → leaving_time p ≤ seen_max p
leaving-le-seen idle = omega arith
leaving-le-seen (spinning rt) = omega arith
leaving-le-seen (clear rt) = omega arith
leaving-le-seen (entered rt) = omega arith
leaving-le-seen (backing rt) = omega arith
leaving-le-seen (adding rt) = omega arith
leaving-le-seen (counting rt) = omega arith
leaving-le-seen (loading rt) = omega arith
leaving-le-seen (raising rt m) = omega arith
leaving-le-seen (leaving rt) = omega arith

pub active-seen : (p : Pc) → active p ≡ 0 → seen_max p ≡ 0
active-seen idle h = refl
active-seen (spinning rt) h = refl
active-seen (clear rt) h = refl
active-seen (entered rt) h = refl
active-seen (backing rt) h = refl
active-seen (adding rt) h = refl
active-seen (counting rt) h = absurd (omega arith)
active-seen (loading rt) h = absurd (omega arith)
active-seen (raising rt m) h = absurd (omega arith)
active-seen (leaving rt) h = absurd (omega arith)
