-- ===== src/Stat/Worker.antt =====
-- src/stat.cpp, src/stat.h: the counters of transactions, `collectAgentStat` and the batches of
-- `agentStatsWorker`. What the operating system reports is a parameter of each collection.
pub mod Batches
use pinpoint_cpp_agent.Common.{
  ℕ, ◌+◌, ◌≡◌, Bool, List, [], ◌∷◌, ◌++◌, length, set, replicate, ltb, leb, if◌then◌else◌,
}
use pinpoint_cpp_agent.Stat.ActiveSpans.{ActiveRequests, no_requests}

pub record Counters : Type 0 where
  pub sample_new : ℕ
  pub un_sample_new : ℕ
  pub sample_cont : ℕ
  pub un_sample_cont : ℕ
  pub skip_new : ℕ
  pub skip_cont : ℕ

abbrev pub no_counts : Counters
no_counts = record {
  sample_new = 0;
  un_sample_new = 0;
  sample_cont = 0;
  un_sample_cont = 0;
  skip_new = 0;
  skip_cont = 0;
}

-- The functions that count a transaction.
pub data Incr : Type 0 where
  incr_sample_new : Incr
  incr_unsample_new : Incr
  incr_sample_cont : Incr
  incr_unsample_cont : Incr
  incr_skip_new : Incr
  incr_skip_cont : Incr

abbrev pub incr : Incr → Counters → Counters
incr incr_sample_new c = record c { sample_new = c.sample_new + 1 }
incr incr_unsample_new c = record c { un_sample_new = c.un_sample_new + 1 }
incr incr_sample_cont c = record c { sample_cont = c.sample_cont + 1 }
incr incr_unsample_cont c = record c { un_sample_cont = c.un_sample_cont + 1 }
incr incr_skip_new c = record c { skip_new = c.skip_new + 1 }
incr incr_skip_cont c = record c { skip_cont = c.skip_cont + 1 }

-- What a collection reads elsewhere: the clock, the system, and the values that
-- `collectAndResetResponseTime` and `collectActiveRequests` give.
pub record Readings : Type 0 where
  pub now : ℕ
  pub heap_alloc : ℕ
  pub heap_max : ℕ
  pub num_threads : ℕ
  pub response_time_avg : ℕ
  pub response_time_max : ℕ
  pub active_requests : ActiveRequests

pub record AgentStatsSnapshot : Type 0 where
  pub sample_time : ℕ
  pub interval : ℕ
  pub num_threads : ℕ
  pub heap_alloc_size : ℕ
  pub heap_max_size : ℕ
  pub response_time_avg : ℕ
  pub response_time_max : ℕ
  pub num_sample_new : ℕ
  pub num_sample_cont : ℕ
  pub num_unsample_new : ℕ
  pub num_unsample_cont : ℕ
  pub num_skip_new : ℕ
  pub num_skip_cont : ℕ
  pub active_requests : ActiveRequests

abbrev pub new_snapshot : AgentStatsSnapshot
new_snapshot = record {
  sample_time = 0;
  interval = 0;
  num_threads = 0;
  heap_alloc_size = 0;
  heap_max_size = 0;
  response_time_avg = 0;
  response_time_max = 0;
  num_sample_new = 0;
  num_sample_cont = 0;
  num_unsample_new = 0;
  num_unsample_cont = 0;
  num_skip_new = 0;
  num_skip_cont = 0;
  active_requests = no_requests;
}

-- The snapshot; the counters are 0 after it.
abbrev pub collect_agent_stat : ℕ → Counters → Readings → AgentStatsSnapshot
collect_agent_stat collect_interval c r = record {
  sample_time = r.now;
  interval = collect_interval;
  num_threads = r.num_threads;
  heap_alloc_size = r.heap_alloc;
  heap_max_size = r.heap_max;
  response_time_avg = r.response_time_avg;
  response_time_max = r.response_time_max;
  num_sample_new = c.sample_new;
  num_sample_cont = c.sample_cont;
  num_unsample_new = c.un_sample_new;
  num_unsample_cont = c.un_sample_cont;
  num_skip_new = c.skip_new;
  num_skip_cont = c.skip_cont;
  active_requests = r.active_requests;
}

pub record StatsConfig : Type 0 where
  pub batch_count : ℕ
  pub collect_interval : ℕ

-- The last field is no state of the code: it records what the array held at each call of
-- `recordStats`, the first call first. That call only queues a request; the sender reads the array
-- later, and may drop the request.
pub record StatsWorker : Type 0 where
  pub counters : Counters
  pub batch : ℕ
  pub snapshots : List AgentStatsSnapshot
  pub recorded : List (List AgentStatsSnapshot)

-- the state at the start of the loop, after `initAgentStats`
abbrev pub start : StatsConfig → StatsWorker
start config = record {
  counters = no_counts;
  batch = 0;
  snapshots = replicate config.batch_count new_snapshot;
  recorded = [];
}

abbrev pub collect : StatsConfig → Readings → StatsWorker → StatsWorker
collect config r s =
    if ltb s.batch (length s.snapshots)
    then record s {
      counters = no_counts;
      snapshots = set s.snapshots s.batch (collect_agent_stat config.collect_interval s.counters r);
      batch = s.batch + 1;
    }
    else s

abbrev pub record_batch : StatsConfig → StatsWorker → StatsWorker
record_batch config s =
    if leb config.batch_count s.batch
    then record s { batch = 0; recorded = s.recorded ++ s.snapshots ∷ [] }
    else s

-- `initAgentStats`, which the sender calls as well, when it empties its queue
abbrev pub init_agent_stats : StatsWorker → StatsWorker
init_agent_stats s = record s { counters = no_counts; batch = 0 }

-- A transaction that is counted, a period that elapses, or an initialization by the sender.
pub data StatsEvent : Type 0 where
  counted : Incr → StatsEvent
  elapsed : Readings → StatsEvent
  initialized : StatsEvent

abbrev pub on_event : StatsConfig → StatsEvent → StatsWorker → StatsWorker
on_event config (counted i) s = record s { counters = incr i s.counters }
on_event config (elapsed r) s = record_batch config (collect config r s)
on_event config initialized s = init_agent_stats s

unfoldable pub run_worker : StatsConfig → List StatsEvent → StatsWorker → StatsWorker
run_worker config [] s = s
run_worker config (e ∷ l) s = run_worker config l (on_event config e s)
