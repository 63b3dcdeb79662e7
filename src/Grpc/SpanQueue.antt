-- ===== src/Grpc/SpanQueue.antt =====
-- src/grpc.cpp: GrpcSpan: the queue of chunks, the worker that collects them into batches, and the
-- calls in flight with their permits. A step is a critical section or an operation of one thread;
-- the channel, the clock and the outcome of a call are the environment, which chooses the step.
pub mod Order
pub mod Permits
use pinpoint_cpp_agent.Common.{
  ℕ, suc, ◌+◌, ◌≤◌, ◌<◌, ◌≡◌, ◌≢◌, Bool, true, false, List, [], ◌∷◌, ◌++◌, length, ltb, leb, ◌==◌,
  if◌then◌else◌, take, drop, ◌⊎◌,
}

-- Where `sendSpanWorker` is.
pub data Phase : Type 0 where
  collecting : Phase  -- in `collect_batch`, or in the loop of `flush_remaining`
  collected : Phase  -- before `readyChannel`
  sending : Phase  -- before `try_acquire_permit`
  holding : Phase  -- with a permit, before the call is registered
  registered : ℕ → Phase  -- before the call with this number is launched

-- Calls have numbers in place of addresses. The last three fields record what happened to chunks:
-- all that came in, the batches launched, and those dropped, each with the first one first.
pub record SpanSender (Chunk : Type 0) : Type 0 where
  pub span_queue : List Chunk
  pub batch : List Chunk
  pub remaining : List Chunk
  pub flushing : Bool
  pub phase : Phase
  pub permits : ℕ
  pub pending : List ℕ
  pub next_call : ℕ
  pub exiting : Bool
  pub enqueued : List Chunk
  pub launched : List (List Chunk)
  pub dropped : List Chunk

pub record SpanSettings : Type 0 where
  pub queue_size : ℕ
  pub batch_size : ℕ
  pub max_permits : ℕ

-- `completeCall`, and the removal after a failed launch
abbrev pub remove : ℕ → List ℕ → List ℕ
remove call [] = []
remove call (k ∷ l) = if k == call then remove call l else k ∷ remove call l

abbrev pub Contains : ℕ → List ℕ → Type 0
Contains call [] = ⊥
Contains call (k ∷ l) = (k ≡ call) ⊎ Contains call l

module _ {Chunk : Type 0} where
  abbrev pub init : SpanSettings → SpanSender Chunk
  init settings = record {
    span_queue = [];
    batch = [];
    remaining = [];
    flushing = false;
    phase = collecting;
    permits = settings.max_permits;
    pending = [];
    next_call = 0;
    exiting = false;
    enqueued = [];
    launched = [];
    dropped = [];
  }

  -- The oldest chunk leaves a full queue.
  abbrev pub enqueue_span : SpanSettings → Chunk → SpanSender Chunk → SpanSender Chunk
  enqueue_span settings c s =
      if ltb (length s.span_queue) settings.queue_size
      then record s { span_queue = s.span_queue ++ c ∷ []; enqueued = s.enqueued ++ c ∷ [] }
      else record s {
        span_queue = drop 1 s.span_queue ++ c ∷ [];
        enqueued = s.enqueued ++ c ∷ [];
        dropped = s.dropped ++ take 1 s.span_queue;
      }

  -- The batch is destroyed, and the worker goes on with the next one.
  abbrev pub drop_batch : SpanSender Chunk → SpanSender Chunk
  drop_batch s = record s { batch = []; phase = collecting; dropped = s.dropped ++ s.batch }

  -- The steps. A thread that has passed the check of `isExiting` may still enqueue.
  pub data Step (settings : SpanSettings) (s : SpanSender Chunk) : SpanSender Chunk → Type 0 where
    enqueue : (c : Chunk) → Step settings s (enqueue_span settings c s)
    exit : Step settings s (record s { exiting = true })
    -- the first chunk of a batch, or another one while it has room
    took :
        (c : Chunk) (q : List Chunk)
        → s.phase ≡ collecting
        → s.flushing ≡ false
        → s.span_queue ≡ c ∷ q
        → (s.batch ≡ []) ⊎ (length s.batch < settings.batch_size)
        → Step settings s (record s { span_queue = q; batch = s.batch ++ c ∷ [] })
    -- the batch is full, the deadline has passed, or the agent exits
    stopped_collecting :
        s.phase ≡ collecting
        → s.flushing ≡ false
        → s.batch ≢ []
        → Step settings s (record s { phase = collected })
    channel_ready : s.phase ≡ collected → Step settings s (record s { phase = sending })
    channel_not_ready : s.phase ≡ collected → Step settings s (drop_batch s)
    acquired :
        (p : ℕ)
        → s.phase ≡ sending
        → s.permits ≡ suc p
        → Step settings s (record s { permits = p; phase = holding })
    -- after the flush interval
    no_permit : s.phase ≡ sending → s.permits ≡ 0 → Step settings s (drop_batch s)
    register :
        s.phase ≡ holding
        → Step settings s (record s {
          pending = s.next_call ∷ s.pending;
          next_call = suc s.next_call;
          phase = registered s.next_call;
        })
    launch :
        (call : ℕ)
        → s.phase ≡ registered call
        → Step settings s
            (record s { launched = s.launched ++ s.batch ∷ []; batch = []; phase = collecting })
    -- an exception before the call is launched
    failed_unregistered :
        s.phase ≡ holding → Step settings s (drop_batch (record s { permits = s.permits + 1 }))
    failed_registered :
        (call : ℕ)
        → s.phase ≡ registered call
        → Step settings s
            (drop_batch (record s { pending = remove call s.pending; permits = s.permits + 1 }))
    -- the callback of a call that has been launched
    complete :
        (call : ℕ)
        → Contains call s.pending
        → s.phase ≢ registered call
        → Step settings s (record s { pending = remove call s.pending; permits = s.permits + 1 })
    -- `flush_remaining`, over a channel that is connected
    flush :
        s.phase ≡ collecting
        → s.flushing ≡ false
        → s.batch ≡ []
        → s.exiting ≡ true
        → Step settings s (record s { flushing = true; remaining = s.span_queue; span_queue = [] })
    -- and over one that is not
    flush_not_ready :
        s.phase ≡ collecting
        → s.flushing ≡ false
        → s.batch ≡ []
        → s.exiting ≡ true
        → Step settings s
            (record s { flushing = true; span_queue = []; dropped = s.dropped ++ s.span_queue })
    -- a chunk of the loop, which sends the batch when it is full
    flush_next :
        (c : Chunk) (r : List Chunk)
        → s.phase ≡ collecting
        → s.flushing ≡ true
        → s.remaining ≡ c ∷ r
        → Step settings s (record s {
          remaining = r;
          batch = s.batch ++ c ∷ [];
          phase = if leb settings.batch_size (suc (length s.batch)) then sending else collecting;
        })
    -- the last batch; an empty one is not sent
    flush_last :
        s.phase ≡ collecting
        → s.flushing ≡ true
        → s.remaining ≡ []
        → s.batch ≢ []
        → Step settings s (record s { phase = sending })

  pub data Reach (settings : SpanSettings) : SpanSender Chunk → Type 0 where
    begin : Reach settings (init settings)
    next : {s t : SpanSender Chunk} → Reach settings s → Step settings s t → Reach settings t
