-- ===== src/UrlStat/Workers/Counts.antt =====
-- No entry is lost or counted twice on its way through the workers, and every size is bounded.
use pinpoint_cpp_agent.Common.{ℕ, ◌+◌, ◌≤◌, ◌≡◌, List, [], ◌∷◌, ◌++◌, length, All}
use pinpoint_cpp_agent.UrlStat.{UrlStatMap}
use pinpoint_cpp_agent.UrlStat.Snapshot.{entries, Whole}
use pinpoint_cpp_agent.UrlStat.Workers.{UrlStats, Settings}

module _ (b : Settings) where
  -- the snapshot has at most as many keys as entries, and no more than the highest limit
  abbrev Fits : UrlStatMap → Type 0
  Fits m = Whole m × (length m ≤ entries m) × (length m ≤ b.max_limit)

  abbrev pub all_entries : List UrlStatMap → ℕ
  all_entries [] = 0
  all_entries (m ∷ taken) = entries m + all_entries taken

  -- the entries that all snapshots have counted
  abbrev pub counted_entries : UrlStats → ℕ
  counted_entries s = entries s.snapshot + all_entries s.taken

  -- the calls that added an entry to a snapshot
  abbrev pub added_entries : UrlStats → ℕ
  added_entries s = length s.handled + s.direct

  pub record IsAccounted (s : UrlStats) : Type 0 where
    pub accounted : s.accepted ≡ s.handled ++ (s.batch ++ s.url_stats)
    pub queue : length s.url_stats ≤ b.max_queue
    pub fits : Fits s.snapshot
    pub taken : All (λ m. length m ≤ b.max_limit) s.taken
    pub most : counted_entries s ≤ added_entries s
    pub exact : added_entries s ≤ b.min_limit → counted_entries s ≡ added_entries s
