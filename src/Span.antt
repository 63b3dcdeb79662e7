-- ===== src/Span.antt =====
-- src/span.cpp, src/span.h, src/span_event.cpp: the span events of a span, from `NewSpanEvent` to
-- the chunks that are sent. A span is used by one thread. A span event is named by its sequence
-- where the code holds its address.
pub mod Store
pub mod Chunk
pub mod Events
pub mod Reachable
pub mod Tests
use pinpoint_cpp_agent.Common.{
  ℕ, zero, suc, ◌+◌, ◌-◌, Bool, true, false, not, ◌||◌, Option, none, some, List, [], ◌∷◌, ◌++◌,
  ltb, leb, ◌==◌, if◌then◌else◌, length, ◌%◌, ◌^◌,
}
use pinpoint_cpp_agent.Common.Int.{ℤ, pos, negsuc, sub_ℕ}

-- `SpanEventImpl`, with the fields that decide where it goes.
pub record SpanEvent : Type 0 where
  pub sequence : ℕ
  pub depth : ℕ
  pub start_time : ℕ
  pub start_elapsed : ℤ
  pub finished : Bool

pub record SpanChunk : Type 0 where
  pub final : Bool
  pub key_time : ℕ
  pub event_chunk : List SpanEvent

-- The settings that the code reads.
pub record SpanConfig : Type 0 where
  pub max_event_depth : ℕ
  pub max_event_sequence : ℕ
  pub event_chunk_size : ℕ

-- `SpanImpl` with its `SpanData`. `event_stack` has its top first; `recorded` holds the chunks
-- given to the agent, the last one first.
pub record Span : Type 0 where
  pub start_time : ℕ
  pub is_async : Bool
  pub event_sequence : ℕ
  pub event_depth : ℕ
  pub event_stack : List SpanEvent
  pub finished_events : List SpanEvent
  pub overflow : ℕ
  pub ended : Bool
  pub recorded : List SpanChunk

unfoldable pub new_span : ℕ → Bool → Span
new_span now is_async = record {
  start_time = now;
  is_async = is_async;
  event_sequence = 0;
  event_depth = 1;
  event_stack = [];
  finished_events = [];
  overflow = 0;
  ended = false;
  recorded = [];
}

-- `SpanData::addSpanEvent`, for a new event
unfoldable pub add_span_event : ℕ → Span → Span
add_span_event now s = record s {
  event_sequence = s.event_sequence + 1;
  event_depth = s.event_depth + 1;
  event_stack =
      record {
        sequence = s.event_sequence;
        depth = s.event_depth;
        start_time = now;
        start_elapsed = sub_ℕ 0 0;
        finished = false;
      }
      ∷ s.event_stack;
}

-- `lower_bound` and `insert`
abbrev pub insert_sorted : SpanEvent → List SpanEvent → List SpanEvent
insert_sorted se [] = se ∷ []
insert_sorted se (e ∷ es) =
    let rest = insert_sorted se es in if ltb e.sequence se.sequence then e ∷ rest else se ∷ e ∷ es

-- the sequence of `finished_events.back()`, of a list with `e` in front
abbrev pub back_sequence : SpanEvent → List SpanEvent → ℕ
back_sequence e [] = e.sequence
back_sequence e (f ∷ es) = back_sequence f es

unfoldable pub store_finished_event : SpanEvent → List SpanEvent → List SpanEvent
store_finished_event se [] = se ∷ []
store_finished_event se (e ∷ es) =
    if ltb (back_sequence e es) se.sequence
    then (e ∷ es) ++ se ∷ []
    else if ltb se.sequence e.sequence
    then se ∷ e ∷ es
    else insert_sorted se (e ∷ es)

-- `SpanData::finishSpanEvent` with `SpanEventImpl::finish`, at a stack
unfoldable pub finish_top : List SpanEvent → Span → Span
unfolding store_finished_event
finish_top [] s = s
finish_top (se ∷ rest) s = record s {
  event_stack = rest;
  event_depth = s.event_depth - 1;
  finished_events = store_finished_event (record se { finished = true }) s.finished_events;
}

unfoldable pub finish_span_event : Span → Span
unfolding finish_top
finish_span_event s = finish_top s.event_stack s

-- `static_cast<int32_t>` of an int64_t
abbrev pub to_int32 : ℤ → ℤ
to_int32 (pos n) = let r = n % 2 ^ 32 in if ltb r (2 ^ 31) then pos r else negsuc (2 ^ 32 - 1 - r)
to_int32 (negsuc n) =
    let r = n % 2 ^ 32 in if ltb r (2 ^ 31) then negsuc r else pos (2 ^ 32 - 1 - r)

-- The loop of `optimizeSpanEvents` from the second event on.
unfoldable pub optimize_rest : ℕ → ℕ → List SpanEvent → List SpanEvent
optimize_rest prev_start_time prev_depth [] = []
optimize_rest prev_start_time prev_depth (se ∷ events) =
    record se {
      start_elapsed = to_int32 (sub_ℕ se.start_time prev_start_time);
      depth = if prev_depth == se.depth then 0 else se.depth;
    }
    ∷ optimize_rest se.start_time se.depth events

-- The chunk of some finished events, optimized.
unfoldable pub span_chunk : Bool → ℕ → List SpanEvent → SpanChunk
unfolding optimize_rest
span_chunk final span_start [] = record { final = final; key_time = 0; event_chunk = [] }
span_chunk final span_start (se ∷ events) =
    let key_time = if final then span_start else se.start_time in
    record {
      final = final;
      key_time = key_time;
      event_chunk =
          record se { start_elapsed = to_int32 (sub_ℕ se.start_time key_time) }
          ∷ optimize_rest se.start_time se.depth events;
    }

-- `record_chunk`; the chunk takes the finished events
unfoldable pub record_chunk : Bool → Span → Span
unfolding span_chunk
record_chunk final s = record s {
  finished_events = [];
  recorded = span_chunk final s.start_time s.finished_events ∷ s.recorded;
}

-- `SpanImpl::NewSpanEvent`
unfoldable pub new_span_event : SpanConfig → ℕ → Span → Span
unfolding add_span_event
new_span_event config now s =
    if s.ended
    then s
    else if leb config.max_event_depth s.event_depth
        || leb config.max_event_sequence s.event_sequence
    then record s { overflow = s.overflow + 1 }
    else add_span_event now s

unfoldable pub end_span_event : SpanConfig → Span → Span
unfolding finish_span_event record_chunk
end_span_event config s =
    if s.ended
    then s
    else let s' = finish_span_event s in
      if leb config.event_chunk_size (length s'.finished_events) then record_chunk false s' else s'

abbrev pub event_at : ℕ → List SpanEvent → Option SpanEvent
event_at sequence [] = none
event_at sequence (e ∷ es) =
    let rest = event_at sequence es in if e.sequence == sequence then some e else rest

-- `finished_.exchange(true)` on one event
abbrev pub mark : ℕ → List SpanEvent → List SpanEvent
mark sequence [] = []
mark sequence (e ∷ es) =
    let rest = mark sequence es in
    if e.sequence == sequence then record e { finished = true } ∷ es else e ∷ rest

-- `finished_` of an event; one that is no longer on the stack is finished.
abbrev pub is_finished : ℕ → List SpanEvent → Bool
is_finished sequence stack = elim (event_at sequence stack) [ none ↦ true | some e ↦ e.finished ]

-- `SpanEventImpl::EndEvent`
unfoldable pub end_event : SpanConfig → ℕ → Span → Span
unfolding end_span_event
end_event config sequence s =
    if is_finished sequence s.event_stack
    then s
    else end_span_event config (record s { event_stack = mark sequence s.event_stack })

-- `DisabledSpanEvent::EndEvent` with `endDisabledSpanEvent`
unfoldable pub end_disabled_span_event : Span → Span
end_disabled_span_event s =
    if s.ended then s else if ltb 0 s.overflow then record s { overflow = s.overflow - 1 } else s

-- `SpanImpl::EndSpan`, as far as its events go
unfoldable pub end_span : Span → Span
unfolding finish_span_event record_chunk
end_span s =
    if s.ended
    then s
    else let ending = record s { ended = true } in
      record_chunk true (if s.is_async then finish_span_event ending else ending)

-- The spans that calls of the application lead to.
pub data Reach (config : SpanConfig) : Span → Type 0 where
  started : (now : ℕ) → Reach config (new_span now false)
  -- by `NewAsyncSpan`, which gives the new span its first event
  async_started : (now : ℕ) → Reach config (add_span_event now (new_span now true))
  new_event : {s : Span} (now : ℕ) → Reach config s → Reach config (new_span_event config now s)
  event_ended :
      {s : Span} (sequence : ℕ) → Reach config s → Reach config (end_event config sequence s)
  disabled_ended : {s : Span} → Reach config s → Reach config (end_disabled_span_event s)
  span_ended : {s : Span} → Reach config s → Reach config (end_span s)
