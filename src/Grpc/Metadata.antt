-- ===== src/Grpc/Metadata.antt =====
-- src/grpc.cpp: GrpcMetadata: the queue of metadata, the retries and `sendMetaWorker`. A step is a
-- critical section, or the outcome of a send, which the environment chooses.
pub mod Released
pub mod Retries
use pinpoint_cpp_agent.Common.{
  ℕ, suc, ◌+◌, ◌≤◌, ◌<◌, ◌≡◌, Bool, true, false, List, [], ◌∷◌, ◌++◌, length, Option, none, some,
  ltb, leb, if◌then◌else◌, Bytes, ◌⊎◌,
}

abbrev pub metadata_retry_max_attempts : ℕ
metadata_retry_max_attempts = 3

abbrev pub metadata_retry_delay : ℕ
metadata_retry_delay = 1000

-- By the text under which the caches keep it.
pub data MetaData : Type 0 where
  api_meta : Bytes → MetaData
  error_meta : Bytes → MetaData
  sql_meta : Bytes → MetaData
  sql_uid_meta : Bytes → MetaData
  exception_meta : Bytes → MetaData

-- The removal from a cache that `release_failed_cache` asks the agent for.
pub data CacheRemoval : Type 0 where
  remove_cache_api : Bytes → CacheRemoval
  remove_cache_error : Bytes → CacheRemoval
  remove_cache_sql : Bytes → CacheRemoval
  remove_cache_sql_uid : Bytes → CacheRemoval

abbrev pub release_failed_cache : MetaData → List CacheRemoval
release_failed_cache (api_meta key) = remove_cache_api key ∷ []
release_failed_cache (error_meta key) = remove_cache_error key ∷ []
release_failed_cache (sql_meta key) = remove_cache_sql key ∷ []
release_failed_cache (sql_uid_meta key) = remove_cache_sql_uid key ∷ []
release_failed_cache (exception_meta key) = []

pub record PendingMeta : Type 0 where
  pub meta : MetaData
  pub retry_count : ℕ
  pub available_at : ℕ

-- `sending` is what the worker has popped. The fields after `exiting` record what happened: all
-- that came in, what was sent, what overflowed, what was given up and released, and what the
-- worker held when the agent exited.
pub record MetaSender : Type 0 where
  pub meta_queue : List PendingMeta
  pub retry_queue : List PendingMeta
  pub sending : Option PendingMeta
  pub now : ℕ
  pub stop_requested : Bool
  pub exiting : Bool
  pub worker_ended : Bool
  pub enqueued : List MetaData
  pub sent : List PendingMeta
  pub overflowed : List MetaData
  pub released : List PendingMeta
  pub removals : List CacheRemoval
  pub abandoned : List PendingMeta

abbrev pub init : MetaSender
init = record {
  meta_queue = [];
  retry_queue = [];
  sending = none;
  now = 0;
  stop_requested = false;
  exiting = false;
  worker_ended = false;
  enqueued = [];
  sent = [];
  overflowed = [];
  released = [];
  removals = [];
  abandoned = [];
}

-- `multimap::emplace`: after the entries of the same time
abbrev pub emplace : PendingMeta → List PendingMeta → List PendingMeta
emplace p [] = p ∷ []
emplace p (q ∷ l) = if ltb p.available_at q.available_at then p ∷ q ∷ l else q ∷ emplace p l

abbrev pub enqueue_meta : ℕ → MetaData → MetaSender → MetaSender
enqueue_meta max_queue_size meta s =
    if ltb (length s.meta_queue + length s.retry_queue) max_queue_size
    then record s {
      meta_queue = s.meta_queue ++ record { meta = meta; retry_count = 0; available_at = 0 } ∷ [];
      enqueued = meta ∷ s.enqueued;
    }
    else record s { overflowed = meta ∷ s.overflowed; enqueued = meta ∷ s.enqueued }

abbrev pub schedule_retry : PendingMeta → MetaSender → MetaSender
schedule_retry p s = record s {
  sending = none;
  retry_queue = emplace (record p { available_at = s.now + metadata_retry_delay }) s.retry_queue;
}

-- After a send that failed, unless the agent exits.
abbrev pub send_failed : PendingMeta → MetaSender → MetaSender
send_failed p s =
    let p' = record p { retry_count = p.retry_count + 1 } in
    if leb p'.retry_count metadata_retry_max_attempts then schedule_retry p' s else record s {
      sending = none;
      released = p' ∷ s.released;
      removals = release_failed_cache p.meta ++ s.removals;
    }

pub data Step (max_queue_size : ℕ) (s : MetaSender) : MetaSender → Type 0 where
  -- a thread that has passed the check of `isExiting` may still enqueue
  enqueue : (meta : MetaData) → Step max_queue_size s (enqueue_meta max_queue_size meta s)
  tick : Step max_queue_size s (record s { now = s.now + 1 })
  stop : Step max_queue_size s (record s { stop_requested = true })
  exit : Step max_queue_size s (record s { exiting = true })
  popped :
      (p : PendingMeta) (q : List PendingMeta)
      → s.worker_ended ≡ false
      → s.sending ≡ none
      → s.stop_requested ≡ false
      → s.exiting ≡ false
      → s.meta_queue ≡ p ∷ q
      → Step max_queue_size s (record s { meta_queue = q; sending = some p })
  popped_retry :
      (p : PendingMeta) (q : List PendingMeta)
      → s.worker_ended ≡ false
      → s.sending ≡ none
      → s.stop_requested ≡ false
      → s.exiting ≡ false
      → s.meta_queue ≡ []
      → s.retry_queue ≡ p ∷ q
      → p.available_at ≤ s.now
      → Step max_queue_size s (record s { retry_queue = q; sending = some p })
  ended :
      s.sending ≡ none
      → (s.stop_requested ≡ true) ⊎ (s.exiting ≡ true)
      → Step max_queue_size s (record s { worker_ended = true })
  was_sent :
      (p : PendingMeta)
      → s.sending ≡ some p
      → Step max_queue_size s (record s { sending = none; sent = p ∷ s.sent })
  failed :
      (p : PendingMeta)
      → s.sending ≡ some p
      → s.exiting ≡ false
      → Step max_queue_size s (send_failed p s)
  failed_exiting :
      (p : PendingMeta)
      → s.sending ≡ some p
      → s.exiting ≡ true
      → Step max_queue_size s
          (record s { sending = none; worker_ended = true; abandoned = p ∷ s.abandoned })

pub data Reach (max_queue_size : ℕ) : MetaSender → Type 0 where
  begin : Reach max_queue_size init
  next :
      {s t : MetaSender} → Reach max_queue_size s → Step max_queue_size s t → Reach max_queue_size t
