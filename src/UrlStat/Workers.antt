-- ===== src/UrlStat/Workers.antt =====
-- src/url_stat.cpp: the queue, the worker that empties it and the snapshots that are taken, in
-- any order of their critical sections. A thread that enqueues reads the configuration of that
-- moment, which a reload may have changed; the worker keeps the one of its start.
pub mod Counts
use pinpoint_cpp_agent.Common.{
  ℕ, ◌+◌, ◌≤◌, ◌≡◌, ◌&&◌, List, [], ◌∷◌, ◌++◌, length, ltb, if◌then◌else◌,
}
use pinpoint_cpp_agent.UrlStat.{
  UrlStatConfig, UrlStatEntry, UrlStatMap, to_size, add, add_batch, enqueue,
}

-- `url_stats_`, the `batch` of `addUrlStatsWorker`, `snapshot_`, and the snapshots that
-- `takeSnapshot` has handed out. The last three fields are no state of the code: the entries that
-- found room in the queue, those of them that the worker has added to a snapshot, both the first
-- one first, and the number of calls of `addSnapshot`.
pub record UrlStats : Type 0 where
  pub url_stats : List UrlStatEntry
  pub batch : List UrlStatEntry
  pub snapshot : UrlStatMap
  pub taken : List UrlStatMap
  pub accepted : List UrlStatEntry
  pub handled : List UrlStatEntry
  pub direct : ℕ

abbrev pub start : UrlStats
start = record {
  url_stats = [];
  batch = [];
  snapshot = [];
  taken = [];
  accepted = [];
  handled = [];
  direct = 0;
}

-- The settings of all configurations that are in force: the size of the queue, and the limit on
-- the keys of a snapshot.
pub record Settings : Type 0 where
  pub max_queue : ℕ
  pub min_limit : ℕ
  pub max_limit : ℕ

pub record IsWithin (b : Settings) (config : UrlStatConfig) : Type 0 where
  pub queue : config.queue_size ≤ b.max_queue
  pub at_least : b.min_limit ≤ to_size config.limit
  pub at_most : to_size config.limit ≤ b.max_limit

module _ (b : Settings) where
  pub data Reach : UrlStats → Type 0 where
    begin : Reach start
    -- `enqueueUrlStats`, by any thread
    enqueued :
        {s : UrlStats} (us : UrlStatEntry) (current : UrlStatConfig)
        → Reach s
        → IsWithin b current
        → Reach (record s {
          url_stats = enqueue us current s.url_stats;
          accepted =
              if current.enable && ltb (length s.url_stats) current.queue_size
              then s.accepted ++ us ∷ []
              else s.accepted;
        })
    -- `batch.swap(url_stats_)`
    swapped :
        {s : UrlStats}
        → Reach s
        → s.batch ≡ []
        → Reach (record s { url_stats = []; batch = s.url_stats })
    -- the batch is added under the lock of the snapshot
    added :
        {s : UrlStats} (config : UrlStatConfig)
        → Reach s
        → IsWithin b config
        → Reach (record s {
          batch = [];
          snapshot = add_batch s.batch config s.snapshot;
          handled = s.handled ++ s.batch;
        })
    -- `addSnapshot`
    added_one :
        {s : UrlStats} (us : UrlStatEntry) (current : UrlStatConfig)
        → Reach s
        → IsWithin b current
        → Reach (record s { snapshot = add us current s.snapshot; direct = s.direct + 1 })
    -- `takeSnapshot`
    took :
        {s : UrlStats} → Reach s → Reach (record s { snapshot = []; taken = s.snapshot ∷ s.taken })
