-- ===== src/Grpc/SpanQueue/Order/Steps.antt =====
-- Each step keeps the chunks in order and accounted for.
use mathlib.Core.List.Sublist
use mathlib.Core.List.{Sublist, sublist-append_left}
use pinpoint_cpp_agent.Common.{
  ◌+◌, ◌≤◌, ◌<◌, ◌≡◌, refl, ap, [], ◌∷◌, ◌++◌, length, inl, inr, arith, concat, concat-append,
  append-nil, append_assoc, length-append,
}
use pinpoint_cpp_agent.Grpc.SpanQueue.{
  SpanSender, SpanSettings, Step, enqueue, exit, took, stopped_collecting, channel_ready,
  channel_not_ready, acquired, no_permit, register, launch, failed_unregistered, failed_registered,
  complete, flush, flush_not_ready, flush_next, flush_last, Reach, begin, next,
}
use pinpoint_cpp_agent.Grpc.SpanQueue.Order.{
  Accounted, same_kept, dropped-Accounted, enqueue-Accounted,
}

module _ {Chunk : Type 0} where
  Step-Accounted :
      {settings : SpanSettings} {s t : SpanSender Chunk}
      → 0 < settings.queue_size
      → Accounted settings s
      → Step settings s t
      → Accounted settings t
  Step-Accounted {settings} {s} positive x (enqueue c) = enqueue-Accounted settings s c positive x
  Step-Accounted {settings} {s} positive x exit =
      same_kept _ x refl refl refl (omega arith) x.nothing_remains
  Step-Accounted {settings} {s} positive x (took c q e f e' room) =
      let none_left : s.remaining ≡ [] = elim x.nothing_remains [
        | inl g ↦ absurd (ground arith)
        | inr r ↦ r
      ] in
      same_kept _ x (rw (none_left, e') (simp (append_assoc, append-nil))) refl refl
        (omega (arith, ap length e')) x.nothing_remains
  Step-Accounted positive x (stopped_collecting e f n) =
      same_kept _ x refl refl refl (omega arith) x.nothing_remains
  Step-Accounted positive x (channel_ready e) =
      same_kept _ x refl refl refl (omega arith) x.nothing_remains
  Step-Accounted positive x (channel_not_ready e) =
      dropped-Accounted _ x refl refl refl refl x.nothing_remains
  Step-Accounted positive x (acquired p e a) =
      same_kept _ x refl refl refl (omega arith) x.nothing_remains
  Step-Accounted positive x (no_permit e z) =
      dropped-Accounted _ x refl refl refl refl x.nothing_remains
  Step-Accounted positive x (register e) =
      same_kept _ x refl refl refl (omega arith) x.nothing_remains
  Step-Accounted {settings} {s} positive x (launch call e) =
      same_kept _ x (rw (concat-append s.launched (s.batch ∷ [])) (simp (append_assoc, append-nil)))
        refl refl (omega arith) x.nothing_remains
  Step-Accounted positive x (failed_unregistered e) =
      dropped-Accounted _ x refl refl refl refl x.nothing_remains
  Step-Accounted positive x (failed_registered call e) =
      dropped-Accounted _ x refl refl refl refl x.nothing_remains
  Step-Accounted positive x (complete call c n) =
      same_kept _ x refl refl refl (omega arith) x.nothing_remains
  Step-Accounted {settings} {s} positive x (flush e f b g) =
      let none_left : s.remaining ≡ [] = elim x.nothing_remains [
        | inl h ↦ absurd (ground arith)
        | inr r ↦ r
      ] in
      same_kept _ x (rw none_left (simp (append_assoc, append-nil))) refl refl (omega arith)
        (inl refl)
  Step-Accounted {settings} {s} positive x (flush_not_ready e f b g) = record {
    in_order =
        Sublist.trans
          (Sublist.append (Sublist.refl (concat s.launched ++ s.batch ++ s.remaining))
            (sublist-append_left [] s.span_queue))
          x.in_order;
    all_counted = omega (
      arith,
      x.all_counted,
      length-append s.dropped s.span_queue,
      length-append (concat s.launched ++ s.batch ++ s.remaining) s.span_queue,
      length-append (concat s.launched ++ s.batch ++ s.remaining) [],
    );
    queue_bounded = omega arith;
    nothing_remains = inl refl;
  }
  Step-Accounted {settings} {s} positive x (flush_next c r e f g) =
      same_kept _ x (rw g (simp append_assoc)) refl refl (omega arith) (inl f)
  Step-Accounted positive x (flush_last e f g n) =
      same_kept _ x refl refl refl (omega arith) x.nothing_remains

  Reach-all :
      {settings : SpanSettings} {s : SpanSender Chunk}
      → 0 < settings.queue_size
      → Reach settings s
      → Accounted settings s
  Reach-all positive begin = record {
    in_order = Sublist.refl [];
    all_counted = refl;
    queue_bounded = omega arith;
    nothing_remains = inr refl;
  }
  Reach-all positive (next r step) = Step-Accounted positive (Reach-all positive r) step

  -- With room for a chunk in the queue, in each state that is reached the batches launched, the
  -- batch of the worker, what it still has to flush and the queue are, one after the other, a
  -- sublist of the chunks that came in: they stay in order and none is sent twice. With the
  -- chunks that were dropped they are as many as came in, so none is lost in another way. The
  -- queue is within its size.
  pub Reach-Accounted :
      {settings : SpanSettings} {s : SpanSender Chunk}
      → 0 < settings.queue_size
      → Reach settings s
      → Sublist (concat s.launched ++ s.batch ++ s.remaining ++ s.span_queue) s.enqueued
        × (length (concat s.launched ++ s.batch ++ s.remaining ++ s.span_queue) + length s.dropped
            ≡ length s.enqueued)
        × (length s.span_queue ≤ settings.queue_size)
  Reach-Accounted positive r =
      let x = Reach-all positive r in (x.in_order, x.all_counted, x.queue_bounded)
