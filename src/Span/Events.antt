-- ===== src/Span/Events.antt =====
-- What the operations on the events of a span keep: where each event is, and in which order.
use mathlib.Core.Path.{subst}
use pinpoint_cpp_agent.Common.{
  ℕ, suc, ◌+◌, ◌<◌, ◌≡◌, ◌≢◌, refl, sym, ap, ◌∙◌, Bool, true, List, [], ◌∷◌, arith, ◌==◌, length,
  All, All_mono, Bool-cases, inl, inr,
}
use pinpoint_cpp_agent.Span.{
  SpanEvent, SpanChunk, Span, add_span_event, store_finished_event, finish_top, finish_span_event,
  record_chunk, mark,
}
use pinpoint_cpp_agent.Span.Store.{
  Sorted, All-store_finished_event, length-store_finished_event, Sorted-store_finished_event,
}
use pinpoint_cpp_agent.Span.Chunk.{span_chunk_lem}

-- The stack, its top first: sequences fall, and the depth counts the events below.
abbrev pub Nested : List SpanEvent → Type 0
Nested [] = Unit
Nested (e ∷ es) = (e.depth ≡ suc (length es)) × All (λ f. f.sequence < e.sequence) es × Nested es

abbrev pub all_events : List SpanChunk → ℕ
all_events [] = 0
all_events (chunk ∷ recorded) = length chunk.event_chunk + all_events recorded

-- Every event is on the stack, among the finished events, or in a chunk.
abbrev pub Accounted : Span → Type 0
Accounted s =
    s.event_sequence ≡ length s.event_stack + length s.finished_events + all_events s.recorded

-- Finished events have other sequences than those on the stack.
abbrev Apart : List SpanEvent → List SpanEvent → Type 0
Apart stack finished = All (λ e. All (λ f. f.sequence ≢ e.sequence) finished) stack

-- The invariant of a span with some stack.
abbrev InvAt : List SpanEvent → Span → Type 0
InvAt stack s =
    (s.event_depth ≡ suc (length stack))
    × Nested stack
    × All (λ e. e.sequence < s.event_sequence) stack
    × All (λ f. f.sequence < s.event_sequence) s.finished_events
    × Sorted s.finished_events
    × Apart stack s.finished_events
    × (s.event_sequence ≡ length stack + length s.finished_events + all_events s.recorded)
    × All (λ chunk. Sorted chunk.event_chunk) s.recorded

abbrev pub Inv : Span → Type 0
Inv s = InvAt s.event_stack s

pub add_span_event-Inv : (now : ℕ) (s : Span) → Inv s → Inv (add_span_event now s)
unfolding add_span_event
add_span_event-Inv now s (depth, nested, low, low', sorted, apart, all, chunks) = (
  omega arith,
  (depth, low, nested),
  (omega arith, All_mono s.event_stack (λ e h. omega (arith, h)) low),
  All_mono s.finished_events (λ e h. omega (arith, h)) low',
  sorted,
  (All_mono s.finished_events (λ f h. omega (arith, h)) low', apart),
  omega arith,
  chunks,
)

Apart-others :
    (se : SpanEvent) (rest finished : List SpanEvent)
    → All (λ f. f.sequence < se.sequence) rest
    → Apart rest finished
    → Apart rest (store_finished_event se finished)
Apart-others se [] finished h a = tt
Apart-others se (e ∷ rest) finished h a = (
  All-store_finished_event (λ f. f.sequence ≢ e.sequence) se finished (omega (arith, h.0)) a.0,
  Apart-others se rest finished h.1 a.1,
)

finish_top-Inv :
    (stack : List SpanEvent) (s : Span)
    → s.event_stack ≡ stack
    → InvAt stack s
    → Inv (finish_top stack s)
unfolding finish_top
finish_top-Inv [] s e i = subst (λ (stack : List SpanEvent). InvAt stack s) (sym e) i
finish_top-Inv (se ∷ rest) s e (depth, nested, low, low', sorted, apart, all, chunks) =
    let ended = record se { finished = true } in
    (
      omega (arith, depth),
      nested.2,
      low.1,
      All-store_finished_event (λ f. f.sequence < s.event_sequence) ended s.finished_events low.0
          low',
      Sorted-store_finished_event ended s.finished_events sorted apart.0,
      Apart-others ended rest s.finished_events nested.1 apart.1,
      omega (arith, all, length-store_finished_event ended s.finished_events),
      chunks,
    )

pub finish_span_event-Inv : (s : Span) → Inv s → Inv (finish_span_event s)
unfolding finish_span_event
finish_span_event-Inv s i = finish_top-Inv s.event_stack s refl i

all-Apart : (stack : List SpanEvent) → Apart stack []
all-Apart [] = tt
all-Apart (e ∷ stack) = (tt, all-Apart stack)

pub record_chunk-Inv : (final : Bool) (s : Span) → Inv s → Inv (record_chunk final s)
unfolding record_chunk
record_chunk-Inv final s (depth, nested, low, low', sorted, apart, all, chunks) =
    let (sorted', size) = span_chunk_lem final s.start_time s.finished_events sorted in
    (
      depth,
      nested,
      low,
      tt,
      tt,
      all-Apart s.event_stack,
      omega (arith, all, size),
      (sorted', chunks),
    )

-- Marking an event on the stack changes nothing that the invariant is about.
All-mark :
    (P : SpanEvent → Type 0) (sequence : ℕ) (es : List SpanEvent)
    → ((e : SpanEvent) → P e → P (record e { finished = true }))
    → All P es
    → All P (mark sequence es)
All-mark P sequence [] keeps h = tt
All-mark P sequence (e ∷ es) keeps h = elim (Bool-cases (e.sequence == sequence)) [
  | inl y ↦ rw y (keeps e h.0, h.1)
  | inr n ↦ rw n (h.0, All-mark P sequence es keeps h.1)
]

length-mark : (sequence : ℕ) (es : List SpanEvent) → length (mark sequence es) ≡ length es
length-mark sequence [] = refl
length-mark sequence (e ∷ es) = elim (Bool-cases (e.sequence == sequence)) [
  | inl y ↦ rw y refl
  | inr n ↦ rw n (ap suc (length-mark sequence es))
]

Nested-mark : (sequence : ℕ) (es : List SpanEvent) → Nested es → Nested (mark sequence es)
Nested-mark sequence [] h = tt
Nested-mark sequence (e ∷ es) h = elim (Bool-cases (e.sequence == sequence)) [
  | inl y ↦ rw y h
  | inr n ↦ rw n (
    h.0 ∙ ap suc (sym (length-mark sequence es)),
    All-mark (λ f. f.sequence < e.sequence) sequence es (λ f k. k) h.1,
    Nested-mark sequence es h.2,
  )
]

pub mark-Inv :
    (sequence : ℕ) (s : Span) → Inv s → Inv (record s { event_stack = mark sequence s.event_stack })
mark-Inv sequence s (depth, nested, low, low', sorted, apart, all, chunks) =
    let size = length-mark sequence s.event_stack in
    (
      omega (arith, depth, size),
      Nested-mark sequence s.event_stack nested,
      All-mark (λ e. e.sequence < s.event_sequence) sequence s.event_stack (λ e k. k) low,
      low',
      sorted,
      All-mark (λ e. All (λ f. f.sequence ≢ e.sequence) s.finished_events) sequence s.event_stack
          (λ e k. k) apart,
      omega (arith, all, size),
      chunks,
    )
