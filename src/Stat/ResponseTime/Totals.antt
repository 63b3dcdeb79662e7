-- ===== src/Stat/ResponseTime/Totals.antt =====
-- What the shards and the calls under way hold adds up to the calls that have finished.
use pinpoint_cpp_agent.Common.{ℕ, suc, ◌+◌, ◌≤◌, ◌<◌, ◌≡◌, refl, Bool, List, [], ◌∷◌, length, arith}
use pinpoint_cpp_agent.Stat.ResponseTime.{
  Shard, Pc, idle, spinning, clear, entered, backing, adding, counting, loading, raising, leaving,
  Collector, free, pausing, taking_count, taking_total, taking_max, Taken, shard_count, Move,
  called, saw_clear, entered_shard, went_on, turned_back, left_again, added, counted, loaded,
  missed, raised, high_enough, left, finish,
}
use pinpoint_cpp_agent.Stat.ResponseTime.Exclusion.{active, quiet_shards}

abbrev pub total_of : List ℕ → ℕ
total_of [] = 0
total_of (rt ∷ l) = rt + total_of l

-- added to the sum by a call that has not finished
abbrev pub added_time : Pc → ℕ
added_time (counting rt) = rt
added_time (loading rt) = rt
added_time (raising rt m) = rt
added_time (leaving rt) = rt
added_time _ = 0

-- added to the number of requests by a call that has not finished
abbrev pub added_request : Pc → ℕ
added_request (loading rt) = 1
added_request (raising rt m) = 1
added_request (leaving rt) = 1
added_request _ = 0

abbrev pub taken : Collector → Taken
taken free = record { count = 0; total = 0; highest = 0 }
taken (pausing j) = record { count = 0; total = 0; highest = 0 }
taken (taking_count j k) = k
taken (taking_total j k) = k
taken (taking_max j k) = k

-- The first shards, whose field the collection has set to 0.
abbrev pub emptied_counts : Collector → ℕ
emptied_counts free = 0
emptied_counts (pausing j) = 0
emptied_counts (taking_count j k) = j
emptied_counts (taking_total j k) = suc j
emptied_counts (taking_max j k) = suc j

abbrev pub emptied_times : Collector → ℕ
emptied_times free = 0
emptied_times (pausing j) = 0
emptied_times (taking_count j k) = j
emptied_times (taking_total j k) = j
emptied_times (taking_max j k) = suc j

abbrev pub emptied_peaks : Collector → ℕ
emptied_peaks free = 0
emptied_peaks (pausing j) = 0
emptied_peaks (taking_count j k) = j
emptied_peaks (taking_total j k) = j
emptied_peaks (taking_max j k) = j

pub Move-times :
    {flag : Bool} {shard shard' : Shard} {p p' : Pc} (l : List ℕ)
    → Move flag shard p p' shard'
    → shard'.acc_response_time + added_time p + total_of l
      ≡ shard.acc_response_time + added_time p' + total_of (finish p l)
Move-times l (called rt) = refl
Move-times l (saw_clear rt e) = refl
Move-times l (entered_shard rt) = refl
Move-times l (went_on rt e) = refl
Move-times l (turned_back rt e) = refl
Move-times l (left_again rt) = refl
Move-times l (added rt) = omega arith
Move-times l (counted rt) = refl
Move-times l (loaded rt) = refl
Move-times l (missed rt m h) = refl
Move-times l (raised rt m h e) = refl
Move-times l (high_enough rt m h) = refl
Move-times l (left rt) = omega arith

pub Move-requests :
    {flag : Bool} {shard shard' : Shard} {p p' : Pc} (l : List ℕ)
    → Move flag shard p p' shard'
    → shard'.request_count + added_request p + length l
      ≡ shard.request_count + added_request p' + length (finish p l)
Move-requests l (called rt) = refl
Move-requests l (saw_clear rt e) = refl
Move-requests l (entered_shard rt) = refl
Move-requests l (went_on rt e) = refl
Move-requests l (turned_back rt e) = refl
Move-requests l (left_again rt) = refl
Move-requests l (added rt) = refl
Move-requests l (counted rt) = omega arith
Move-requests l (loaded rt) = refl
Move-requests l (missed rt m h) = refl
Move-requests l (raised rt m h e) = refl
Move-requests l (high_enough rt m h) = refl
Move-requests l (left rt) = omega arith

-- The values that a collection takes from a shard.
abbrev pub SameValues : Shard → Shard → Type 0
SameValues shard' shard =
    (shard'.request_count ≡ shard.request_count)
    × (shard'.acc_response_time ≡ shard.acc_response_time)
    × (shard'.max_response_time ≡ shard.max_response_time)

-- A call that is not past its second check of the flag leaves them.
pub Move-SameValues :
    {flag : Bool} {shard shard' : Shard} {p p' : Pc}
    → active p ≡ 0
    → Move flag shard p p' shard'
    → SameValues shard' shard
Move-SameValues h (called rt) = (refl, refl, refl)
Move-SameValues h (saw_clear rt e) = (refl, refl, refl)
Move-SameValues h (entered_shard rt) = (refl, refl, refl)
Move-SameValues h (went_on rt e) = (refl, refl, refl)
Move-SameValues h (turned_back rt e) = (refl, refl, refl)
Move-SameValues h (left_again rt) = (refl, refl, refl)
Move-SameValues h (added rt) = absurd (omega arith)
Move-SameValues h (counted rt) = absurd (omega arith)
Move-SameValues h (loaded rt) = absurd (omega arith)
Move-SameValues h (missed rt m l) = absurd (omega arith)
Move-SameValues h (raised rt m l e) = absurd (omega arith)
Move-SameValues h (high_enough rt m l) = absurd (omega arith)
Move-SameValues h (left rt) = absurd (omega arith)

pub active-added_time : (p : Pc) → active p ≡ 0 → added_time p ≡ 0
active-added_time idle h = refl
active-added_time (spinning rt) h = refl
active-added_time (clear rt) h = refl
active-added_time (entered rt) h = refl
active-added_time (backing rt) h = refl
active-added_time (adding rt) h = refl
active-added_time (counting rt) h = absurd (omega arith)
active-added_time (loading rt) h = absurd (omega arith)
active-added_time (raising rt m) h = absurd (omega arith)
active-added_time (leaving rt) h = absurd (omega arith)

pub active-added_request : (p : Pc) → active p ≡ 0 → added_request p ≡ 0
active-added_request idle h = refl
active-added_request (spinning rt) h = refl
active-added_request (clear rt) h = refl
active-added_request (entered rt) h = refl
active-added_request (backing rt) h = refl
active-added_request (adding rt) h = refl
active-added_request (counting rt) h = refl
active-added_request (loading rt) h = absurd (omega arith)
active-added_request (raising rt m) h = absurd (omega arith)
active-added_request (leaving rt) h = absurd (omega arith)

-- A collection that has emptied a shard has seen all of them quiet.
pub emptied-quiet :
    (j i : ℕ) (collector : Collector)
    → j < emptied_counts collector
    → i < shard_count
    → i < quiet_shards collector
emptied-quiet j i free h l = absurd (omega arith)
emptied-quiet j i (pausing n) h l = absurd (omega arith)
emptied-quiet j i (taking_count n k) h l = l
emptied-quiet j i (taking_total n k) h l = l
emptied-quiet j i (taking_max n k) h l = l

pub emptied_times-le : (collector : Collector) → emptied_times collector ≤ emptied_counts collector
emptied_times-le free = omega arith
emptied_times-le (pausing n) = omega arith
emptied_times-le (taking_count n k) = omega arith
emptied_times-le (taking_total n k) = omega arith
emptied_times-le (taking_max n k) = omega arith

pub emptied_peaks-le : (collector : Collector) → emptied_peaks collector ≤ emptied_counts collector
emptied_peaks-le free = omega arith
emptied_peaks-le (pausing n) = omega arith
emptied_peaks-le (taking_count n k) = omega arith
emptied_peaks-le (taking_total n k) = omega arith
emptied_peaks-le (taking_max n k) = omega arith
