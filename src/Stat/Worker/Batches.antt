-- ===== src/Stat/Worker/Batches.antt =====
-- The array of snapshots and its index hold the batches of the periods.
use pinpoint_cpp_agent.Common.{◌<◌, ◌≡◌, List, [], ◌∷◌, ◌++◌, length, take, ltb, if◌then◌else◌}
use pinpoint_cpp_agent.Stat.Worker.{
  Counters, no_counts, incr, AgentStatsSnapshot, collect_agent_stat, StatsConfig, StatsWorker,
  StatsEvent, counted, elapsed, initialized,
}

-- What the worker promises, without an array: the numbers counted since the last period, the
-- snapshots that wait for a full batch, and the batches, the first one first.
pub record Promised : Type 0 where
  pub counts : Counters
  pub waiting : List AgentStatsSnapshot
  pub batches : List (List AgentStatsSnapshot)

abbrev pub promise : StatsConfig → StatsEvent → Promised → Promised
promise config (counted i) b = record b { counts = incr i b.counts }
promise config (elapsed r) b =
    let w = b.waiting ++ collect_agent_stat config.collect_interval b.counts r ∷ [] in
    if ltb (length w) config.batch_count
    then record b { counts = no_counts; waiting = w }
    else record { counts = no_counts; waiting = []; batches = b.batches ++ w ∷ [] }
promise config initialized b = record b { counts = no_counts; waiting = [] }

unfoldable pub promised : StatsConfig → List StatsEvent → Promised → Promised
promised config [] b = b
promised config (e ∷ l) b = promised config l (promise config e b)

abbrev pub nothing : Promised
nothing = record { counts = no_counts; waiting = []; batches = [] }

-- What a state of the worker holds of that.
abbrev pub held : StatsWorker → Promised
held s = record { counts = s.counters; waiting = take s.batch s.snapshots; batches = s.recorded }

-- The index is within the array, which has the configured size.
abbrev pub IsWorker : StatsConfig → StatsWorker → Type 0
IsWorker config s = (length s.snapshots ≡ config.batch_count) × (s.batch < config.batch_count)
