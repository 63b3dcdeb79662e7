-- ===== src/Grpc/SpanQueue/Order.antt =====
-- What is sent is what came in, in order, without the chunks that were dropped.
pub mod Steps
use mathlib.Core.Path.{subst}
use mathlib.Core.List.Sublist
use mathlib.Core.List.{Sublist, sublist-append_left, sublist-append_right}
use pinpoint_cpp_agent.Common.{
  ℕ, suc, ◌+◌, ◌≤◌, ◌<◌, ◌≡◌, ◌≢◌, refl, sym, ap, ◌∙◌, Bool, true, false, List, [], ◌∷◌, ◌++◌,
  length, ltb, leb, if◌then◌else◌, ◌⊎◌, inl, inr, Bool-cases, arith, take, drop, concat,
  concat-append, append-nil, append_assoc, length-append, max, All, All-append,
}
use pinpoint_cpp_agent.Grpc.SpanQueue.{
  Phase, collecting, collected, sending, holding, registered, SpanSender, SpanSettings, init,
  enqueue_span, drop_batch, Step, enqueue, exit, took, stopped_collecting, channel_ready,
  channel_not_ready, acquired, no_permit, register, launch, failed_unregistered, failed_registered,
  complete, flush, flush_not_ready, flush_next, flush_last, Reach, begin, next,
}

module _ {Chunk : Type 0} where
  -- The chunks that are sent or still to be sent, the oldest first.
  abbrev pub kept : SpanSender Chunk → List Chunk
  kept s = concat s.launched ++ s.batch ++ s.remaining ++ s.span_queue

  pub record Accounted (settings : SpanSettings) (s : SpanSender Chunk) : Type 0 where
    pub in_order : Sublist (kept s) s.enqueued
    pub all_counted : length (kept s) + length s.dropped ≡ length s.enqueued
    pub queue_bounded : length s.span_queue ≤ settings.queue_size
    pub nothing_remains : (s.flushing ≡ true) ⊎ (s.remaining ≡ [])

  -- A step that moves no chunk, or moves some within the order.
  pub same_kept :
      {settings : SpanSettings} {s : SpanSender Chunk} (t : SpanSender Chunk)
      → Accounted settings s
      → kept t ≡ kept s
      → t.enqueued ≡ s.enqueued
      → t.dropped ≡ s.dropped
      → length t.span_queue ≤ length s.span_queue
      → (t.flushing ≡ true) ⊎ (t.remaining ≡ [])
      → Accounted settings t
  same_kept t x k e d q n = record {
    in_order = rw (k, e) x.in_order;
    all_counted = rw (k, e, d) x.all_counted;
    queue_bounded = omega (arith, q, x.queue_bounded);
    nothing_remains = n;
  }

  length-parts :
      (a b c d : List Chunk) → length (a ++ b ++ c ++ d) ≡ length a + length b + length c + length d
  length-parts a b c d =
      omega (arith, length-append a b, length-append (a ++ b) c, length-append (a ++ b ++ c) d)

  -- The batch is dropped.
  pub dropped-Accounted :
      {settings : SpanSettings} {s : SpanSender Chunk} (t : SpanSender Chunk)
      → Accounted settings s
      → kept t ≡ concat s.launched ++ [] ++ s.remaining ++ s.span_queue
      → t.enqueued ≡ s.enqueued
      → t.dropped ≡ s.dropped ++ s.batch
      → t.span_queue ≡ s.span_queue
      → (t.flushing ≡ true) ⊎ (t.remaining ≡ [])
      → Accounted settings t
  dropped-Accounted {settings} {s} t x k e d q n = record {
    in_order =
        rw (k, e)
          (Sublist.trans
            (Sublist.append
              (Sublist.append
                (Sublist.append (Sublist.refl (concat s.launched)) (sublist-append_left [] s.batch))
                (Sublist.refl s.remaining))
              (Sublist.refl s.span_queue))
            x.in_order);
    all_counted =
        let parts = length-parts (concat s.launched) s.batch s.remaining s.span_queue in
        let rest = length-parts (concat s.launched) [] s.remaining s.span_queue in
        rw (k, e, d) (omega (arith, x.all_counted, parts, rest, length-append s.dropped s.batch));
    queue_bounded = rw q x.queue_bounded;
    nothing_remains = n;
  }

  -- The first chunk of the queue is dropped.
  drop_first : (l q : List Chunk) {e : List Chunk} → Sublist (l ++ q) e → Sublist (l ++ drop 1 q) e
  drop_first l [] h = h
  drop_first l (d ∷ q) {e} h =
      Sublist.trans {l₃ = e} (Sublist.append (Sublist.refl l) (Sublist.cons d (Sublist.refl q))) h

  length-drop_first : (q : List Chunk) → length (drop 1 q) + length (take 1 q) ≡ length q
  length-drop_first [] = refl
  length-drop_first (d ∷ q) = omega arith

  -- A chunk is appended to a queue that comes last.
  appended :
      (l q : List Chunk) (c : Chunk) {e : List Chunk}
      → Sublist (l ++ q) e
      → Sublist (l ++ (q ++ c ∷ [])) (e ++ c ∷ [])
  appended l q c {e} h =
      subst (λ x. Sublist x (e ++ c ∷ [])) (append_assoc l q (c ∷ []))
        (Sublist.append h (Sublist.refl (c ∷ [])))

  queue_le :
      (q : List Chunk) (c : Chunk) (n : ℕ) → 0 < n → length q ≤ n → length (drop 1 q ++ c ∷ []) ≤ n
  queue_le [] c n positive h = omega arith
  queue_le (d ∷ q) c n positive h = omega (arith, length-append q (c ∷ []))

  pub enqueue-Accounted :
      (settings : SpanSettings) (s : SpanSender Chunk) (c : Chunk)
      → 0 < settings.queue_size
      → Accounted settings s
      → Accounted settings (enqueue_span settings c s)
  enqueue-Accounted settings s c positive x =
      let l = concat s.launched ++ s.batch ++ s.remaining in
      let q = s.span_queue in
      let before = length-append l q in
      let chunk = length-append s.enqueued (c ∷ []) in
      elim (Bool-cases (ltb (length s.span_queue) settings.queue_size)) [
        | inl room ↦
            let after = length-append l (q ++ c ∷ []) in
            let queue = length-append q (c ∷ []) in
            let fits : length q < settings.queue_size = ground arith in
            rw room (record {
              in_order = appended l q c x.in_order;
              all_counted = omega (arith, x.all_counted, before, after, queue, chunk);
              queue_bounded = omega (arith, queue, fits);
              nothing_remains = x.nothing_remains;
            })
        | inr full ↦
            let q' = drop 1 q in
            let after = length-append l (q' ++ c ∷ []) in
            let queue = length-append q' (c ∷ []) in
            let gone = length-append s.dropped (take 1 q) in
            rw full (record {
              in_order = appended l q' c (drop_first l q x.in_order);
              all_counted =
                  omega
                    (arith, x.all_counted, before, after, queue, chunk, gone, length-drop_first q);
              queue_bounded = queue_le q c settings.queue_size positive x.queue_bounded;
              nothing_remains = x.nothing_remains;
            })
      ]
