-- ===== src/Span/Chunk.antt =====
-- The collector can read the depth and the start time of every event of a chunk.
use pinpoint_cpp_agent.Common.{
  ℕ, suc, ◌+◌, ◌-◌, ◌%◌, ◌^◌, ltb, leb, Bool-cases, inl, inr, ◌≤◌, ◌<◌, ◌≡◌, refl, ap, Bool, true,
  false, List, [], ◌∷◌, arith, ◌==◌, if◌then◌else◌, length, All,
}
use pinpoint_cpp_agent.Common.Int.{ℤ, pos, negsuc, sub_ℕ, ◌+ℤ◌, eq_of_parts, +ℤ_parts}
use pinpoint_cpp_agent.Span.{SpanEvent, SpanChunk, to_int32, optimize_rest, span_chunk}
use pinpoint_cpp_agent.Span.Store.{Sorted}

-- What the collector rebuilds: a depth of 0 repeats the one before, and each start is counted
-- from the one before.
abbrev pub read_rest : ℤ → ℕ → List SpanEvent → List (ℕ × ℤ)
read_rest prev_start prev_depth [] = []
read_rest prev_start prev_depth (se ∷ events) =
    let depth = if se.depth == 0 then prev_depth else se.depth in
    let start = prev_start +ℤ se.start_elapsed in (depth, start) ∷ read_rest start depth events

abbrev pub read_chunk : SpanChunk → List (ℕ × ℤ)
read_chunk chunk = read_rest (pos chunk.key_time) 0 chunk.event_chunk

abbrev pub positions : List SpanEvent → List (ℕ × ℤ)
positions [] = []
positions (se ∷ events) = (se.depth, pos se.start_time) ∷ positions events

add_difference : (a b : ℕ) → pos a +ℤ sub_ℕ b a ≡ pos b
add_difference a b =
    eq_of_parts (pos a +ℤ sub_ℕ b a) (pos b) (ground (arith, +ℤ_parts (pos a) (sub_ℕ b a)))

-- Depths begin at 1.
abbrev pub Deep : List SpanEvent → Type 0
Deep = All (λ e. 1 ≤ e.depth)

depth_read :
    (prev depth : ℕ)
    → 1 ≤ depth
    → let written = if prev == depth then 0 else depth in
      (if written == 0 then prev else written) ≡ depth
depth_read prev depth h = ground arith

-- Two times whose difference, the second less the first, is an int32.
abbrev pub Near : ℕ → ℕ → Type 0
Near a b = (b < a + 2 ^ 31) × (a ≤ b + 2 ^ 31)

abbrev pub NearEach : ℕ → List SpanEvent → Type 0
NearEach start [] = Unit
NearEach start (se ∷ events) = Near start se.start_time × NearEach se.start_time events

to_int32-pos : (n : ℕ) → n < 2 ^ 31 → to_int32 (pos n) ≡ pos n
to_int32-pos n h =
    let same : n % 2 ^ 32 ≡ n = omega arith in
    let small : ltb n (2 ^ 31) ≡ true = ground arith in rw (same, small) refl

to_int32-negsuc : (n : ℕ) → n < 2 ^ 31 → to_int32 (negsuc n) ≡ negsuc n
to_int32-negsuc n h =
    let same : n % 2 ^ 32 ≡ n = omega arith in
    let small : ltb n (2 ^ 31) ≡ true = ground arith in rw (same, small) refl

to_int32-difference : (a b : ℕ) → Near a b → to_int32 (sub_ℕ b a) ≡ sub_ℕ b a
to_int32-difference a b h = elim (Bool-cases (leb a b)) [
  | inl e ↦ let le : a ≤ b = ground arith in rw e (to_int32-pos (b - a) (omega (arith, h.0)))
  | inr e ↦ let gt : b < a = ground arith in rw e (to_int32-negsuc (a - b - 1) (omega (arith, h.1)))
]

read-optimize_rest :
    (start depth : ℕ) (events : List SpanEvent)
    → Deep events
    → NearEach start events
    → read_rest (pos start) depth (optimize_rest start depth events) ≡ positions events
unfolding optimize_rest
read-optimize_rest start depth [] h near = refl
read-optimize_rest start depth (se ∷ events) h near =
    let whole = to_int32-difference start se.start_time near.0 in
    rw (depth_read depth se.depth h.0, whole, add_difference start se.start_time)
      (ap (◌∷◌ (se.depth, pos se.start_time))
        (read-optimize_rest se.start_time se.depth events h.1 near.1))

-- the key time of a chunk
abbrev pub key_time_of : Bool → ℕ → List SpanEvent → ℕ
key_time_of final span_start [] = 0
key_time_of final span_start (se ∷ events) = if final then span_start else se.start_time

-- A chunk of events with depths of at least 1, of which each starts less than 2^31 milliseconds
-- after the one before and at most as many before it (the first one: after and before the key
-- time of the chunk), can be read back: although equal depths are written as 0 and start times as
-- 32-bit differences, the depth and the start time of every event follow from the chunk, its key
-- time included.
pub read_chunk-span_chunk :
    (final : Bool) (span_start : ℕ) (events : List SpanEvent)
    → Deep events
    → NearEach (key_time_of final span_start events) events
    → read_chunk (span_chunk final span_start events) ≡ positions events
unfolding span_chunk
read_chunk-span_chunk final span_start [] h near = refl
read_chunk-span_chunk final span_start (se ∷ events) h near =
    let key_time = if final then span_start else se.start_time in
    let not_zero : (se.depth == 0) ≡ false = ground (arith, h.0) in
    let whole = to_int32-difference key_time se.start_time near.0 in
    rw (not_zero, whole, add_difference key_time se.start_time)
      (ap (◌∷◌ (se.depth, pos se.start_time))
        (read-optimize_rest se.start_time se.depth events h.1 near.1))

All-optimize_rest :
    (n start depth : ℕ) (events : List SpanEvent)
    → All (λ e. n < e.sequence) events
    → All (λ e. n < e.sequence) (optimize_rest start depth events)
unfolding optimize_rest
All-optimize_rest n start depth [] h = tt
All-optimize_rest n start depth (se ∷ events) h =
    (h.0, All-optimize_rest n se.start_time se.depth events h.1)

Sorted-optimize_rest :
    (start depth : ℕ) (events : List SpanEvent)
    → Sorted events
    → Sorted (optimize_rest start depth events)
unfolding optimize_rest
Sorted-optimize_rest start depth [] h = tt
Sorted-optimize_rest start depth (se ∷ events) h = (
  All-optimize_rest se.sequence se.start_time se.depth events h.0,
  Sorted-optimize_rest se.start_time se.depth events h.1,
)

length-optimize_rest :
    (start depth : ℕ) (events : List SpanEvent)
    → length (optimize_rest start depth events) ≡ length events
unfolding optimize_rest
length-optimize_rest start depth [] = refl
length-optimize_rest start depth (se ∷ events) =
    ap suc (length-optimize_rest se.start_time se.depth events)

pub span_chunk_lem :
    (final : Bool) (span_start : ℕ) (events : List SpanEvent)
    → Sorted events
    → Sorted (span_chunk final span_start events).event_chunk
      × (length (span_chunk final span_start events).event_chunk ≡ length events)
unfolding span_chunk
span_chunk_lem final span_start [] h = (tt, refl)
span_chunk_lem final span_start (se ∷ events) h = (
  (
    All-optimize_rest se.sequence se.start_time se.depth events h.0,
    Sorted-optimize_rest se.start_time se.depth events h.1,
  ),
  ap suc (length-optimize_rest se.start_time se.depth events),
)

pub span_chunk_size :
    (final : Bool) (span_start : ℕ) (events : List SpanEvent)
    → (length (span_chunk final span_start events).event_chunk ≡ length events)
      × ((span_chunk final span_start events).final ≡ final)
unfolding span_chunk
span_chunk_size final span_start [] = (refl, refl)
span_chunk_size final span_start (se ∷ events) =
    (ap suc (length-optimize_rest se.start_time se.depth events), refl)
