-- ===== src/UrlStat/Tests.antt =====
-- URL statistics on concrete inputs.
use pinpoint_cpp_agent.Common.{
  ℕ, ◌+◌, ◌≤◌, ◌<◌, ◌/◌, ◌≡◌, ◌↔◌, ◌⊎◌, refl, true, false, [], ◌∷◌, ◌++◌, codes, List, Bytes, All,
}
use pinpoint_cpp_agent.Common.Int.{ℤ, pos, negsuc, ◌≤ℤ◌}
use pinpoint_cpp_agent.UrlStat.{
  UrlStatConfig, UrlStatEntry, trim_url_path, trim_url_path_view, at_least_one, tick,
  tick_interval_seconds, empty_histogram, build_url_stat_key, enqueue, add_batch,
}
use pinpoint_cpp_agent.UrlStat.Trim.{Kept, trim_url_path_view-Kept}
use pinpoint_cpp_agent.UrlStat.Tick.{tick_lem}
use pinpoint_cpp_agent.UrlStat.Histogram.{add_all, add_all_lem, bucket, count_in, sum_ℤ, IsSample}
use pinpoint_cpp_agent.UrlStat.Workers.{UrlStats, start, Settings}

trimmed :
    (trim_url_path (codes "/a/b/c?q=1") (pos 2) ≡ codes "/a/b/*")
    × (trim_url_path (codes "/a/b?q=1") (pos 5) ≡ codes "/a/b")
    × (trim_url_path (codes "/a/b") (negsuc 3) ≡ codes "/a/*")
unfolding trim_url_path
trimmed = (refl, refl, refl)

trim_url_path_view-Kept_example :
    (path : Bytes) × (rest : Bytes) × (codes "a/b?c" ≡ path ++ rest)
    × ((trim_url_path_view (codes "/a/b?c") (pos 1)).0 ≡ b'/' ∷ path)
    × Kept (at_least_one (pos 1)) path rest (trim_url_path_view (codes "/a/b?c") (pos 1)).1
trim_url_path_view-Kept_example = trim_url_path_view-Kept b'/' (codes "a/b?c") (pos 1)

tick_lem_example :
    (tick tick_interval_seconds 61000 ≤ 61000)
    × (61000 < tick tick_interval_seconds 61000 + 30000)
    × ((tick tick_interval_seconds 61000 ≡ tick tick_interval_seconds 89999)
        ↔ (61000 / 30000 ≡ 89999 / 30000))
tick_lem_example = tick_lem 61000 89999

abbrev samples : List ℤ
samples = pos 50 ∷ pos 100 ∷ pos 9000 ∷ []

add_all_lem_example :
    let h = add_all samples empty_histogram in
    ((i : ℕ) → i < 8 → bucket h.histogram i ≡ count_in i samples)
    × (h.total ≡ sum_ℤ samples)
    × All (λ e. e ≤ℤ h.max_elapsed) samples
    × ((h.max_elapsed ≡ pos 0) ⊎ IsSample h.max_elapsed samples)
    × (pos 0 ≤ℤ h.max_elapsed)
add_all_lem_example = add_all_lem samples

abbrev config : UrlStatConfig
config = record {
  enable = true;
  limit = pos 10;
  enable_trim_path = true;
  trim_path_depth = pos 1;
  method_prefix = true;
  queue_size = 4;
}

abbrev request : UrlStatEntry
request = record {
  url_pattern = codes "/a/b";
  method = codes "GET";
  failed = false;
  end_time = 61000;
  elapsed = pos 7;
}

key : build_url_stat_key request config ≡ codes "GET /a/*"
unfolding build_url_stat_key
key = refl

abbrev settings : Settings
settings = record { max_queue = 4; min_limit = 10; max_limit = 10 }

-- an entry that is in the queue, and then counted
abbrev counted_state : UrlStats
counted_state = record start {
  snapshot = add_batch (enqueue request config []) config [];
  url_stats = [];
  accepted = request ∷ [];
  handled = enqueue request config [];
}
