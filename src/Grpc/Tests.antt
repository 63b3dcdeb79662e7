-- ===== src/Grpc/Tests.antt =====
-- The queues to the collector at concrete inputs.
use mathlib.Core.List.{Sublist}
use pinpoint_cpp_agent.Common.{
  ℕ, ◌+◌, ◌≤◌, ◌≡◌, refl, [], ◌∷◌, arith, inl, false, Bytes, codes, All,
}
use pinpoint_cpp_agent.Grpc.SpanQueue.{
  collecting, SpanSender, SpanSettings, init, enqueue, took, stopped_collecting, channel_ready,
  acquired, register, launch, Reach, begin, next,
}
use pinpoint_cpp_agent.Grpc.SpanQueue.Permits.{Reach-Permitted}
use pinpoint_cpp_agent.Grpc.SpanQueue.Order.Steps.{Reach-Accounted}
use pinpoint_cpp_agent.Grpc.Metadata
use pinpoint_cpp_agent.Grpc.Metadata.{api_meta, PendingMeta, MetaSender, popped, failed}
use pinpoint_cpp_agent.Grpc.Metadata.Released.{Released}
use pinpoint_cpp_agent.Grpc.Metadata.Retries.{Reach-IsCounted}

abbrev small : SpanSettings
small = record { queue_size = 2; batch_size = 2; max_permits = 1 }

-- Three chunks come in, the first one is dropped, and the second one is sent.
abbrev after_launch : SpanSender ℕ
after_launch = record {
  span_queue = 12 ∷ [];
  batch = [];
  remaining = [];
  flushing = false;
  phase = collecting;
  permits = 0;
  pending = 0 ∷ [];
  next_call = 1;
  exiting = false;
  enqueued = 10 ∷ 11 ∷ 12 ∷ [];
  launched = (11 ∷ []) ∷ [];
  dropped = 10 ∷ [];
}

abbrev after_enqueue : SpanSender ℕ
after_enqueue = record (init small) {
  span_queue = 11 ∷ 12 ∷ [];
  enqueued = 10 ∷ 11 ∷ 12 ∷ [];
  dropped = 10 ∷ [];
}

three_enqueued : Reach small after_enqueue
three_enqueued = next (next (next begin (enqueue 10)) (enqueue 11)) (enqueue 12)

after_launch-Reach : Reach small after_launch
after_launch-Reach =
    next
      (next
        (next
          (next
            (next (next three_enqueued (took 11 (12 ∷ []) refl refl refl (inl refl)))
              (stopped_collecting refl refl (λ e. cc)))
            (channel_ready refl))
          (acquired 0 refl refl))
        (register refl))
      (launch 0 refl)

Reach-Permitted_example : 0 + 1 + 0 ≡ 1
Reach-Permitted_example = Reach-Permitted after_launch-Reach

Reach-Accounted_example : Sublist {A = ℕ} (11 ∷ 12 ∷ []) (10 ∷ 11 ∷ 12 ∷ []) × (2 + 1 ≡ 3) × (1 ≤ 2)
Reach-Accounted_example = Reach-Accounted (omega arith) after_launch-Reach

abbrev api_key : Bytes
api_key = codes "main"

abbrev api_pending : ℕ → ℕ → PendingMeta
api_pending n at = record { meta = api_meta api_key; retry_count = n; available_at = at }

-- Metadata that fails once and is waiting to be tried again.
abbrev waiting_sender : MetaSender
waiting_sender = record Metadata.init {
  retry_queue = api_pending 1 1000 ∷ [];
  enqueued = api_meta api_key ∷ [];
}

waiting_sender-Reach : Metadata.Reach 8 waiting_sender
waiting_sender-Reach =
    Metadata.next
      (Metadata.next (Metadata.next Metadata.begin (Metadata.enqueue (api_meta api_key)))
        (popped (api_pending 0 0) [] refl refl refl refl refl))
      (failed (api_pending 0 0) refl refl)

Reach-IsCounted_example :
    (1 ≡ 0 + 1 + 0 + 0 + 0 + 0 + 0)
    × (0 + 1 + 0 ≤ 9)
    × All (λ (p : PendingMeta). p.retry_count ≤ 3) []
    × All (λ (p : PendingMeta). p.retry_count ≡ 4) []
    × Released [] []
Reach-IsCounted_example = Reach-IsCounted waiting_sender-Reach
