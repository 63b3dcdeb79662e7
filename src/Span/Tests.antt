-- ===== src/Span/Tests.antt =====
-- Span events on concrete inputs.
use pinpoint_cpp_agent.Common.{
  ℕ, suc, ◌≤◌, ◌<◌, ◌≡◌, refl, true, false, [], ◌∷◌, arith, length, All, if◌then◌else◌,
}
use pinpoint_cpp_agent.Common.Int.{pos}
use pinpoint_cpp_agent.Span.{
  SpanEvent, SpanConfig, Span, new_span, new_span_event, end_event, end_span,
  end_disabled_span_event, store_finished_event, span_chunk, Reach, started, new_event, event_ended,
  disabled_ended, span_ended,
}
use pinpoint_cpp_agent.Span.Store.{Sorted, PutIn, store_finished_event_lem}
use pinpoint_cpp_agent.Span.Chunk.{read_chunk, read_chunk-span_chunk}
use pinpoint_cpp_agent.Span.Events.{Accounted, Nested}
use pinpoint_cpp_agent.Span.Reachable.{finals, events-Accounted, chunks_bounded}

abbrev config : SpanConfig
config = record { max_event_depth = 3; max_event_sequence = 100; event_chunk_size = 2 }

-- Two events, one inside the other, and one too deep; all are ended, and the span twice.
abbrev used : Span
used = end_span (
    end_span (
      end_event config 0 (
        end_event config 1 (
          end_disabled_span_event (
            new_span_event config 30
              (new_span_event config 20 (new_span_event config 10 (new_span 5 false))))))))

used-Reach : Reach config used
used-Reach = span_ended (
    span_ended (
      event_ended 0
        (event_ended 1 (disabled_ended (new_event 30 (new_event 20 (new_event 10 (started 5))))))))

abbrev event : ℕ → ℕ → ℕ → SpanEvent
event sequence depth start_time = record {
  sequence = sequence;
  depth = depth;
  start_time = start_time;
  start_elapsed = pos 0;
  finished = true;
}

outcome :
    (used.event_stack ≡ [])
    × (used.overflow ≡ 0)
    × (used.event_depth ≡ 1)
    × (length used.recorded ≡ 2)
    × (used.event_sequence ≡ 2)
unfolding new_span new_span_event end_event end_span end_disabled_span_event
outcome = (refl, refl, refl, refl, refl)

events-Accounted_example :
    Accounted used
    × (used.event_depth ≡ suc (length used.event_stack))
    × Nested used.event_stack
    × Sorted used.finished_events
    × All (λ chunk. Sorted chunk.event_chunk) used.recorded
events-Accounted_example = events-Accounted config used used-Reach

chunks_bounded_example :
    (length used.finished_events < 2)
    × All (λ chunk. length chunk.event_chunk ≤ 2) used.recorded
    × (finals config used.recorded ≡ (if used.ended then 1 else 0))
chunks_bounded_example = chunks_bounded config used (omega arith) used-Reach

stored :
    store_finished_event (event 1 1 0) (event 0 1 0 ∷ event 2 1 0 ∷ [])
    ≡ event 0 1 0 ∷ event 1 1 0 ∷ event 2 1 0 ∷ []
unfolding store_finished_event
stored = refl

store_finished_event_lem_example :
    PutIn
      (event 1 1 0)
      (event 0 1 0 ∷ event 2 1 0 ∷ [])
      (store_finished_event (event 1 1 0) (event 0 1 0 ∷ event 2 1 0 ∷ []))
    × Sorted (store_finished_event (event 1 1 0) (event 0 1 0 ∷ event 2 1 0 ∷ []))
store_finished_event_lem_example =
    store_finished_event_lem (event 1 1 0) (event 0 1 0 ∷ event 2 1 0 ∷ [])
      ((omega arith, tt), (tt, tt)) (omega arith, (omega arith, tt))

read_chunk-span_chunk_example :
    read_chunk (span_chunk true 5 (event 0 1 10 ∷ event 1 2 20 ∷ event 2 2 18 ∷ []))
    ≡ (1, pos 10) ∷ (2, pos 20) ∷ (2, pos 18) ∷ []
read_chunk-span_chunk_example =
    read_chunk-span_chunk true 5 (event 0 1 10 ∷ event 1 2 20 ∷ event 2 2 18 ∷ [])
      (omega arith, (omega arith, (omega arith, tt)))
      ((omega arith, omega arith), ((omega arith, omega arith), ((omega arith, omega arith), tt)))
