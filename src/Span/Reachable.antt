-- ===== src/Span/Reachable.antt =====
-- The spans that calls of the application lead to: no event is lost or recorded twice.
use pinpoint_cpp_agent.Common.{
  ℕ, suc, ◌+◌, ◌≤◌, ◌<◌, ◌≡◌, refl, Bool, true, false, ◌||◌, List, [], ◌∷◌, arith, ltb, leb,
  if◌then◌else◌, length, All,
}
use pinpoint_cpp_agent.Span.{
  SpanEvent, SpanChunk, SpanConfig, Span, new_span, add_span_event, finish_top, finish_span_event,
  record_chunk, new_span_event, end_span_event, mark, is_finished, end_event,
  end_disabled_span_event, end_span, Reach, started, async_started, new_event, event_ended,
  disabled_ended, span_ended,
}
use pinpoint_cpp_agent.Span.Store.{Sorted, length-store_finished_event}
use pinpoint_cpp_agent.Span.Chunk.{span_chunk_size}
use pinpoint_cpp_agent.Span.Events.{
  Nested, Accounted, Inv, add_span_event-Inv, finish_span_event-Inv, record_chunk-Inv, mark-Inv,
}

if_keeps : (P : Span → Type 0) (b : Bool) (s t : Span) → P s → P t → P (if b then s else t)
if_keeps P true s t h k = h
if_keeps P false s t h k = k

if_cases :
    (P : Span → Type 0) (b : Bool) (s t : Span)
    → (b ≡ true → P s)
    → (b ≡ false → P t)
    → P (if b then s else t)
if_cases P true s t h k = h refl
if_cases P false s t h k = k refl

module _ (config : SpanConfig) where
  end_span_event-Inv : (s : Span) → Inv s → Inv (end_span_event config s)
  unfolding end_span_event
  end_span_event-Inv s i =
      let i' = finish_span_event-Inv s i in
      if_keeps Inv s.ended _ _ i (
        if_keeps Inv (leb config.event_chunk_size (length (finish_span_event s).finished_events)) _
          _ (record_chunk-Inv false (finish_span_event s) i') i')

  Reach-Inv : {s : Span} → Reach config s → Inv s
  unfolding new_span new_span_event end_event end_disabled_span_event end_span
  Reach-Inv (started now) = (refl, tt, tt, tt, tt, tt, refl, tt)
  Reach-Inv (async_started now) =
      add_span_event-Inv now (new_span now true) (refl, tt, tt, tt, tt, tt, refl, tt)
  Reach-Inv (new_event {s} now r) =
      let i = Reach-Inv r in
      if_keeps Inv s.ended _ _ i (
        if_keeps Inv
          (leb config.max_event_depth s.event_depth
            || leb config.max_event_sequence s.event_sequence)
          _ _ i (add_span_event-Inv now s i))
  Reach-Inv (event_ended {s} sequence r) =
      let i = Reach-Inv r in
      if_keeps Inv (is_finished sequence s.event_stack) _ _ i (
        end_span_event-Inv (record s { event_stack = mark sequence s.event_stack })
          (mark-Inv sequence s i))
  Reach-Inv (disabled_ended {s} r) =
      let i = Reach-Inv r in if_keeps Inv s.ended _ _ i (if_keeps Inv (ltb 0 s.overflow) _ _ i i)
  Reach-Inv (span_ended {s} r) =
      let i = Reach-Inv r in
      let ending = record s { ended = true } in
      if_keeps Inv s.ended _ _ i (
        record_chunk-Inv true (if s.is_async then finish_span_event ending else ending)
          (if_keeps Inv s.is_async _ _ (finish_span_event-Inv ending i) i))

  abbrev pub finals : List SpanChunk → ℕ
  finals [] = 0
  finals (chunk ∷ recorded) = (if chunk.final then 1 else 0) + finals recorded

  -- Fewer finished events than a chunk holds, no chunk with more, and a final chunk if and only
  -- if the span has ended.
  abbrev Within : ℕ → Bool → List SpanChunk → Type 0
  Within finished ended recorded =
      (finished < config.event_chunk_size)
      × All (λ chunk. length chunk.event_chunk ≤ config.event_chunk_size) recorded
      × (finals recorded ≡ (if ended then 1 else 0))

  abbrev Bounded : Span → Type 0
  Bounded s = Within (length s.finished_events) s.ended s.recorded

  finish_top_frame :
      (stack : List SpanEvent) (s : Span)
      → (length (finish_top stack s).finished_events ≤ suc (length s.finished_events))
        × ((finish_top stack s).recorded ≡ s.recorded)
        × ((finish_top stack s).ended ≡ s.ended)
  unfolding finish_top
  finish_top_frame [] s = (omega arith, refl, refl)
  finish_top_frame (se ∷ rest) s = (
    omega (arith, length-store_finished_event (record se { finished = true }) s.finished_events),
    refl,
    refl,
  )

  -- A chunk of no more than its size is recorded; a final one where there was none.
  record_chunk-Bounded :
      (final ended : Bool) (s : Span)
      → 1 ≤ config.event_chunk_size
      → length s.finished_events ≤ config.event_chunk_size
      → All (λ chunk. length chunk.event_chunk ≤ config.event_chunk_size) s.recorded
      → finals s.recorded + (if final then 1 else 0) ≡ (if ended then 1 else 0)
      → s.ended ≡ ended
      → Bounded (record_chunk final s)
  unfolding record_chunk
  record_chunk-Bounded final ended s one few chunks count e =
      let (size, flag) = span_chunk_size final s.start_time s.finished_events in
      (one, (omega (arith, size), chunks), rw (flag, e) (omega (arith, count)))

  end_span_event-Bounded :
      (s : Span) → 1 ≤ config.event_chunk_size → Bounded s → Bounded (end_span_event config s)
  unfolding end_span_event finish_span_event
  end_span_event-Bounded s one (few, chunks, count) =
      let s' = finish_top s.event_stack s in
      let (size, same, same_ended) = finish_top_frame s.event_stack s in
      let chunks' : All (λ chunk. length chunk.event_chunk ≤ config.event_chunk_size) s'.recorded =
        rw same chunks in
      let count' : finals s'.recorded ≡ (if s.ended then 1 else 0) = rw same count in
      if_keeps Bounded s.ended _ _ (few, chunks, count)
        (if_cases Bounded (leb config.event_chunk_size (length s'.finished_events)) _ _
          (λ full.
            record_chunk-Bounded false s.ended s' one (omega (arith, size)) chunks'
              (omega (arith, count')) same_ended)
          (λ room. (ground arith, chunks', rw same_ended count')))

  end_span-Bounded : (s : Span) → 1 ≤ config.event_chunk_size → Bounded s → Bounded (end_span s)
  unfolding end_span finish_span_event
  end_span-Bounded s one (few, chunks, count) =
      if_cases Bounded s.ended _ _ (λ y. (few, chunks, count))
        (λ n.
          let ending = record s { ended = true } in
          let (size, same, same_ended) = finish_top_frame ending.event_stack ending in
          let none_yet : finals s.recorded ≡ 0 = cc (n, count) in
          if_cases (λ (t : Span). Bounded (record_chunk true t)) s.is_async _ _
            (λ async.
              record_chunk-Bounded true true (finish_top ending.event_stack ending) one
                (omega (arith, size)) (rw same chunks) (rw same (omega (arith, none_yet)))
                same_ended)
            (λ sync.
              record_chunk-Bounded true true ending one (omega arith) chunks
                (omega (arith, none_yet)) refl))

  Reach-Bounded : {s : Span} → 1 ≤ config.event_chunk_size → Reach config s → Bounded s
  unfolding new_span add_span_event new_span_event end_event end_disabled_span_event
  Reach-Bounded one (started now) = (one, tt, refl)
  Reach-Bounded one (async_started now) = (one, tt, refl)
  Reach-Bounded one (new_event {s} now r) =
      let b = Reach-Bounded one r in
      if_keeps Bounded s.ended _ _ b (
        if_keeps Bounded
          (leb config.max_event_depth s.event_depth
            || leb config.max_event_sequence s.event_sequence)
          _ _ b b)
  Reach-Bounded one (event_ended {s} sequence r) =
      let b = Reach-Bounded one r in
      if_keeps Bounded (is_finished sequence s.event_stack) _ _ b
        (end_span_event-Bounded (record s { event_stack = mark sequence s.event_stack }) one b)
  Reach-Bounded one (disabled_ended {s} r) =
      let b = Reach-Bounded one r in
      if_keeps Bounded s.ended _ _ b (if_keeps Bounded (ltb 0 s.overflow) _ _ b b)
  Reach-Bounded one (span_ended {s} r) = end_span-Bounded s one (Reach-Bounded one r)

  -- Whatever events a span's thread begins and ends, in whatever order, and whenever it ends the
  -- span: the events on the stack, the finished events and those of the recorded chunks are
  -- together as many as were begun; the depth counter is one more than the events on the stack,
  -- whose own depths count the events from the bottom up to them and whose sequences fall towards
  -- the bottom; the finished events and those of each chunk are in the order of their sequences.
  pub events-Accounted :
      (s : Span)
      → Reach config s
      → Accounted s
        × (s.event_depth ≡ suc (length s.event_stack))
        × Nested s.event_stack
        × Sorted s.finished_events
        × All (λ chunk. Sorted chunk.event_chunk) s.recorded
  events-Accounted s r =
      let (depth, nested, low, low', sorted, apart, all, chunks) = Reach-Inv r in
      (all, depth, nested, sorted, chunks)

  -- With a chunk size of at least 1, no recorded chunk holds more events than that, fewer are
  -- waiting in the finished list, and there is a final chunk, and only one, exactly if the span
  -- has been ended, however often it was ended.
  pub chunks_bounded :
      (s : Span)
      → 1 ≤ config.event_chunk_size
      → Reach config s
      → (length s.finished_events < config.event_chunk_size)
        × All (λ chunk. length chunk.event_chunk ≤ config.event_chunk_size) s.recorded
        × (finals s.recorded ≡ (if s.ended then 1 else 0))
  chunks_bounded s one r = Reach-Bounded one r
