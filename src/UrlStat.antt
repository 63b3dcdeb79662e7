-- ===== src/UrlStat.antt =====
-- src/url_stat.cpp, src/url_stat.h: URL statistics. Times are milliseconds since 1970.
pub mod Trim
pub mod Tick
pub mod Histogram
pub mod Snapshot
pub mod Workers
pub mod Tests
use pinpoint_cpp_agent.Common.{
  ℕ, zero, suc, ◌+◌, ◌-◌, ◌*◌, ◌%◌, ◌^◌, Bool, true, false, not, ◌&&◌, Option, none, some, List, [],
  ◌∷◌, ◌++◌, ltb, ◌==◌, if◌then◌else◌, length, take, Bytes, bytes_eq,
}
use pinpoint_cpp_agent.Common.Int.{ℤ, pos, negsuc, ltb_ℤ, ◌+ℤ◌}

-- The settings that the code reads from `Config`.
pub record UrlStatConfig : Type 0 where
  pub enable : Bool
  pub limit : ℤ
  pub enable_trim_path : Bool
  pub trim_path_depth : ℤ
  pub method_prefix : Bool
  pub queue_size : ℕ

pub record UrlStatEntry : Type 0 where
  pub url_pattern : Bytes
  pub method : Bytes
  pub failed : Bool
  pub end_time : ℕ
  pub elapsed : ℤ

-- The loop of `trim_url_path_view`, from the index `i` on: how many bytes it still takes, and
-- `wildcard`.
unfoldable pub trim_from : ℕ → Bytes → ℕ × Bool
trim_from depth [] = (0, false)
trim_from depth (c ∷ s) =
    let left = if c == b'/' then depth - 1 else depth in
    let rest = trim_from left s in
    if c == b'?'
    then (0, false)
    else if (c == b'/') && (left == 0)
    then (1, true)
    else (suc rest.0, rest.1)

-- `depth`, or 1 below it
abbrev pub at_least_one : ℤ → ℕ
at_least_one (pos zero) = 1
at_least_one (pos (suc n)) = suc n
at_least_one (negsuc n) = 1

unfoldable pub trim_url_path_view : Bytes → ℤ → Bytes × Bool
unfolding trim_from
trim_url_path_view [] depth = ([], false)
trim_url_path_view (c ∷ s) depth =
    let (size, wildcard) = trim_from (at_least_one depth) s in (c ∷ take size s, wildcard)

unfoldable pub trim_url_path : Bytes → ℤ → Bytes
unfolding trim_url_path_view
trim_url_path url depth =
    let (path, wildcard) = trim_url_path_view url depth in
    if wildcard then path ++ b'*' ∷ [] else path

unfoldable pub build_url_stat_key : UrlStatEntry → UrlStatConfig → Bytes
unfolding trim_url_path
build_url_stat_key us config =
    let path =
      if config.enable_trim_path
      then trim_url_path us.url_pattern config.trim_path_depth
      else us.url_pattern in
    if config.method_prefix then us.method ++ b' ' ∷ path else path

-- `TickClock::tick`, with the interval in seconds
unfoldable pub tick : ℕ → ℕ → ℕ
tick interval end_time = end_time - end_time % (interval * 1000)

unfoldable pub get_bucket : ℤ → ℕ
get_bucket elapsed =
    if ltb_ℤ elapsed (pos 100)
    then 0
    else if ltb_ℤ elapsed (pos 300)
    then 1
    else if ltb_ℤ elapsed (pos 500)
    then 2
    else if ltb_ℤ elapsed (pos 1000)
    then 3
    else if ltb_ℤ elapsed (pos 3000)
    then 4
    else if ltb_ℤ elapsed (pos 5000)
    then 5
    else if ltb_ℤ elapsed (pos 8000)
    then 6
    else 7

-- `histogram_[i]++`
abbrev pub count_at : ℕ → List ℕ → List ℕ
count_at i [] = []
count_at zero (n ∷ l) = suc n ∷ l
count_at (suc i) (n ∷ l) = n ∷ count_at i l

pub record UrlStatHistogram : Type 0 where
  pub total : ℤ
  pub max_elapsed : ℤ
  pub histogram : List ℕ

abbrev pub empty_histogram : UrlStatHistogram
empty_histogram = record {
  total = pos 0;
  max_elapsed = pos 0;
  histogram = 0 ∷ 0 ∷ 0 ∷ 0 ∷ 0 ∷ 0 ∷ 0 ∷ 0 ∷ [];
}

unfoldable pub add_elapsed : UrlStatHistogram → ℤ → UrlStatHistogram
unfolding get_bucket
add_elapsed h elapsed = record {
  total = h.total +ℤ elapsed;
  max_elapsed = if ltb_ℤ h.max_elapsed elapsed then elapsed else h.max_elapsed;
  histogram = count_at (get_bucket elapsed) h.histogram;
}

pub record EachUrlStat : Type 0 where
  pub total_histogram : UrlStatHistogram
  pub failed_histogram : UrlStatHistogram
  pub tick_time : ℕ

pub record UrlKey : Type 0 where
  pub url : Bytes
  pub url_tick : ℕ

abbrev pub key_eq : UrlKey → UrlKey → Bool
key_eq a b = (a.url_tick == b.url_tick) && bytes_eq a.url b.url

-- `urlMap_`, an unordered map: `find`, and the change of one entry
abbrev pub UrlStatMap : Type 0
UrlStatMap = List (UrlKey × EachUrlStat)

abbrev pub find_stat : UrlKey → UrlStatMap → Bool
find_stat key [] = false
find_stat key (e ∷ m) = if key_eq key e.0 then true else find_stat key m

abbrev pub at_key : UrlKey → (EachUrlStat → EachUrlStat) → UrlStatMap → UrlStatMap
at_key key f [] = []
at_key key f (e ∷ m) =
    let rest = at_key key f m in if key_eq key e.0 then (e.0, f e.1) ∷ m else e ∷ rest

-- `static_cast<size_t>` of an int
abbrev pub to_size : ℤ → ℕ
to_size (pos n) = n
to_size (negsuc n) = 2 ^ 64 - 1 - n

abbrev pub new_stat : ℕ → EachUrlStat
new_stat t = record {
  total_histogram = empty_histogram;
  failed_histogram = empty_histogram;
  tick_time = t;
}

-- What an entry adds to the statistics of its key.
unfoldable pub record_entry : UrlStatEntry → EachUrlStat → EachUrlStat
unfolding add_elapsed
record_entry us e = record e {
  total_histogram = add_elapsed e.total_histogram us.elapsed;
  failed_histogram =
      if us.failed then add_elapsed e.failed_histogram us.elapsed else e.failed_histogram;
}

abbrev pub tick_interval_seconds : ℕ
tick_interval_seconds = 30

unfoldable pub key_of : UrlStatEntry → UrlStatConfig → UrlKey
unfolding build_url_stat_key tick
key_of us config = record {
  url = build_url_stat_key us config;
  url_tick = tick tick_interval_seconds us.end_time;
}

-- `UrlStatSnapshot::add`
unfoldable pub add : UrlStatEntry → UrlStatConfig → UrlStatMap → UrlStatMap
unfolding record_entry key_of
add us config m =
    let key = key_of us config in
    if find_stat key m
    then at_key key (record_entry us) m
    else if not (ltb (length m) (to_size config.limit))
    then m
    else (key, record_entry us (new_stat key.url_tick)) ∷ m

-- `UrlStats::enqueueUrlStats`: the queue afterwards
unfoldable pub enqueue : UrlStatEntry → UrlStatConfig → List UrlStatEntry → List UrlStatEntry
enqueue us config queue =
    if not config.enable
    then queue
    else if ltb (length queue) config.queue_size
    then queue ++ us ∷ []
    else queue

-- The inner loop of `addUrlStatsWorker`: the whole batch, under the lock of the snapshot.
unfoldable pub add_batch : List UrlStatEntry → UrlStatConfig → UrlStatMap → UrlStatMap
unfolding add
add_batch [] config m = m
add_batch (us ∷ batch) config m = add_batch batch config (add us config m)
