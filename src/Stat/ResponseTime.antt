-- ===== src/Stat/ResponseTime.antt =====
-- src/stat.cpp: `collectResponseTime` by the threads of the application, and
-- `collectAndResetResponseTime` and `resetAgentStats` by the holder of the snapshot mutex. Each
-- step is one atomic operation: of `Step` on one order of all operations, of `WeakStep` also with
-- the reads of older values that the memory orders of the code allow.
pub mod Exclusion
pub mod Totals
pub mod Balance
pub mod Peak
pub mod Exact
pub mod Conserved
pub mod Settle
pub mod Progress
use pinpoint_cpp_agent.Common.{
  ℕ, suc, ◌+◌, ◌-◌, ◌/◌, ◌%◌, ◌≤◌, ◌<◌, ◌≡◌, Bool, true, false, List, [], ◌∷◌, ltb, if◌then◌else◌,
  put, max, not,
}

abbrev pub shard_count : ℕ
shard_count = 16

pub record Shard : Type 0 where
  pub acc_response_time : ℕ
  pub request_count : ℕ
  pub max_response_time : ℕ
  pub writers : ℕ

abbrev pub new_shard : Shard
new_shard = record { acc_response_time = 0; request_count = 0; max_response_time = 0; writers = 0 }

-- Where a thread is in `collectResponseTime`, with its response time.
pub data Pc : Type 0 where
  idle : Pc
  spinning : ℕ → Pc  -- before the load of the flag in the inner loop
  clear : ℕ → Pc  -- before it counts itself as a writer
  entered : ℕ → Pc  -- before the second load of the flag
  backing : ℕ → Pc  -- before it takes itself off again
  adding : ℕ → Pc  -- before `acc_response_time_.fetch_add`
  counting : ℕ → Pc  -- before `request_count_.fetch_add`
  loading : ℕ → Pc  -- before the load of the maximum
  raising : ℕ → ℕ → Pc  -- with `current_max`
  leaving : ℕ → Pc  -- before the last `writers_.fetch_sub`

-- What a collection has taken.
pub record Taken : Type 0 where
  pub count : ℕ
  pub total : ℕ
  pub highest : ℕ

-- Where the holder of the mutex is, with the number of the shard that it is at.
pub data Collector : Type 0 where
  free : Collector
  pausing : ℕ → Collector
  taking_count : ℕ → Taken → Collector
  taking_total : ℕ → Taken → Collector
  taking_max : ℕ → Taken → Collector

-- The last two fields record what happened: the response times of the calls that have finished
-- since the last collection, and each collection with the times that had finished by its end.
pub record ResponseTimes : Type 0 where
  pub shards : ℕ → Shard
  pub snapshotting : Bool
  pub pc : ℕ → Pc
  pub collector : Collector
  pub finished : List ℕ
  pub collected : List (Taken × List ℕ)

abbrev pub init : ResponseTimes
init = record {
  shards = λ j. new_shard;
  snapshotting = false;
  pc = λ t. idle;
  collector = free;
  finished = [];
  collected = [];
}

-- the average that `collectAndResetResponseTime` returns
abbrev pub average : Taken → ℕ
average k = if ltb 0 k.count then k.total / k.count else 0

-- The operations on a shard.
abbrev pub enter_writer : Shard → Shard
enter_writer shard = record shard { writers = shard.writers + 1 }

abbrev pub leave_writer : Shard → Shard
leave_writer shard = record shard { writers = shard.writers - 1 }

abbrev pub add_time : ℕ → Shard → Shard
add_time rt shard = record shard { acc_response_time = shard.acc_response_time + rt }

abbrev pub add_request : Shard → Shard
add_request shard = record shard { request_count = shard.request_count + 1 }

abbrev pub set_max : ℕ → Shard → Shard
set_max rt shard = record shard { max_response_time = rt }

-- One atomic operation of a thread, by the flag that it reads and its shard.
pub data Move (snapshotting : Bool) (shard : Shard) : Pc → Pc → Shard → Type 0 where
  called : (rt : ℕ) → Move snapshotting shard idle (spinning rt) shard
  -- a load that reads true loops
  saw_clear :
      (rt : ℕ) → snapshotting ≡ false → Move snapshotting shard (spinning rt) (clear rt) shard
  entered_shard : (rt : ℕ) → Move snapshotting shard (clear rt) (entered rt) (enter_writer shard)
  went_on : (rt : ℕ) → snapshotting ≡ false → Move snapshotting shard (entered rt) (adding rt) shard
  turned_back :
      (rt : ℕ) → snapshotting ≡ true → Move snapshotting shard (entered rt) (backing rt) shard
  left_again : (rt : ℕ) → Move snapshotting shard (backing rt) (spinning rt) (leave_writer shard)
  added : (rt : ℕ) → Move snapshotting shard (adding rt) (counting rt) (add_time rt shard)
  counted : (rt : ℕ) → Move snapshotting shard (counting rt) (loading rt) (add_request shard)
  loaded :
      (rt : ℕ) → Move snapshotting shard (loading rt) (raising rt shard.max_response_time) shard
  -- `compare_exchange_weak` that fails, for a reason or for none
  missed :
      (rt current_max : ℕ)
      → current_max < rt
      → Move snapshotting shard (raising rt current_max) (raising rt shard.max_response_time) shard
  raised :
      (rt current_max : ℕ)
      → current_max < rt
      → shard.max_response_time ≡ current_max
      → Move snapshotting shard (raising rt current_max) (leaving rt) (set_max rt shard)
  high_enough :
      (rt current_max : ℕ)
      → rt ≤ current_max
      → Move snapshotting shard (raising rt current_max) (leaving rt) shard
  left : (rt : ℕ) → Move snapshotting shard (leaving rt) idle (leave_writer shard)

-- A call finishes by its last operation.
abbrev pub finish : Pc → List ℕ → List ℕ
finish (leaving rt) l = rt ∷ l
finish _ l = l

-- `threads` run; each is bound to a shard by the hash of its id.
module _ (threads : ℕ) (hash : ℕ → ℕ) where
  abbrev pub shard_of : ℕ → ℕ
  shard_of t = hash t % shard_count

  pub data Step (s : ResponseTimes) : ResponseTimes → Type 0 where
    moved :
        (t : ℕ) (p p' : Pc) (shard' : Shard)
        → t < threads
        → s.pc t ≡ p
        → Move s.snapshotting (s.shards (shard_of t)) p p' shard'
        → Step s (record s {
          shards = put s.shards (shard_of t) shard';
          pc = put s.pc t p';
          finished = finish p s.finished;
        })
    paused : s.collector ≡ free → Step s (record s { snapshotting = true; collector = pausing 0 })
    -- a load that reads another value yields and loops
    saw_no_writer :
        (j : ℕ)
        → s.collector ≡ pausing j
        → j < shard_count
        → (s.shards j).writers ≡ 0
        → Step s (record s { collector = pausing (suc j) })
    began :
        s.collector ≡ pausing shard_count
        → Step s
            (record s { collector = taking_count 0 (record { count = 0; total = 0; highest = 0 }) })
    took_count :
        (j : ℕ) (k : Taken)
        → s.collector ≡ taking_count j k
        → j < shard_count
        → Step s (record s {
          shards = put s.shards j (record (s.shards j) { request_count = 0 });
          collector = taking_total j (record k { count = k.count + (s.shards j).request_count });
        })
    took_total :
        (j : ℕ) (k : Taken)
        → s.collector ≡ taking_total j k
        → j < shard_count
        → Step s (record s {
          shards = put s.shards j (record (s.shards j) { acc_response_time = 0 });
          collector = taking_max j (record k { total = k.total + (s.shards j).acc_response_time });
        })
    took_max :
        (j : ℕ) (k : Taken)
        → s.collector ≡ taking_max j k
        → j < shard_count
        → Step s (record s {
          shards = put s.shards j (record (s.shards j) { max_response_time = 0 });
          collector =
              taking_count
                (suc j)
                (record k { highest = max k.highest (s.shards j).max_response_time });
        })
    resumed :
        (k : Taken)
        → s.collector ≡ taking_count shard_count k
        → Step s (record s {
          snapshotting = false;
          collector = free;
          finished = [];
          collected = (k, s.finished) ∷ s.collected;
        })

  pub data Reach : ResponseTimes → Type 0 where
    begin : Reach init
    next : {s t : ResponseTimes} → Reach s → Step s t → Reach t

  -- What the orders of the code allow as well: `snapshotting_` is stored with release order and
  -- read with acquire order, as `writers_` is, so that a thread may read the flag, and a collection
  -- the number of writers, before the store of the other is seen.
  pub data WeakStep (s : ResponseTimes) : ResponseTimes → Type 0 where
    ordered : {t : ResponseTimes} → Step s t → WeakStep s t
    stale_flag :
        (t : ℕ) (p p' : Pc) (shard' : Shard)
        → t < threads
        → s.pc t ≡ p
        → Move (not s.snapshotting) (s.shards (shard_of t)) p p' shard'
        → WeakStep s (record s {
          shards = put s.shards (shard_of t) shard';
          pc = put s.pc t p';
          finished = finish p s.finished;
        })
    stale_writers :
        (j : ℕ)
        → s.collector ≡ pausing j
        → j < shard_count
        → WeakStep s (record s { collector = pausing (suc j) })

  pub data WeakReach : ResponseTimes → Type 0 where
    weak_begin : WeakReach init
    weak_next : {s t : ResponseTimes} → WeakReach s → WeakStep s t → WeakReach t
