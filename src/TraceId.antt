-- ===== src/TraceId.antt =====
-- include/pinpoint/tracer.h: `TraceId::ToString`; src/span.cpp: `SpanData::parseTraceId`.
pub mod RoundTrip
pub mod Tests
use pinpoint_cpp_agent.Common.{
  ℕ, suc, ◌+◌, Option, none, some, [], ◌∷◌, ◌++◌, ltb, ◌==◌, Bool, if◌then◌else◌, length, take,
  drop, Bytes, find_if,
}
use pinpoint_cpp_agent.Common.Int.{ℤ, pos, negsuc}
use pinpoint_cpp_agent.Sql.{decimal}

pub record TraceId : Type 0 where
  pub agent_id : Bytes
  pub start_time : ℤ
  pub sequence : ℤ

abbrev pub no_trace : TraceId
no_trace = record { agent_id = []; start_time = pos 0; sequence = pos 0 }

-- `std::to_chars`
abbrev pub to_chars : ℤ → Bytes
to_chars (pos n) = decimal n
to_chars (negsuc n) = b'-' ∷ decimal (suc n)

unfoldable pub to_string : TraceId → Bytes
to_string tid = tid.agent_id ++ b'^' ∷ (to_chars tid.start_time ++ b'^' ∷ to_chars tid.sequence)

abbrev pub is_caret : ℕ → Bool
is_caret c = c == b'^'

-- `stoll_(text).value_or(0)`; the parser is absl's
abbrev pub number_or_zero : Option ℤ → ℤ
number_or_zero none = pos 0
number_or_zero (some n) = n

-- The third field.
unfoldable pub parse_sequence : (Bytes → Option ℤ) → Bytes → TraceId → TraceId
parse_sequence stoll text tid =
    if ltb 20 (length text) then tid else record tid { sequence = number_or_zero (stoll text) }

-- The second field, and what follows.
unfoldable pub parse_start_time : (Bytes → Option ℤ) → Bytes → TraceId → TraceId
unfolding parse_sequence
parse_start_time stoll text tid = elim (find_if is_caret text) [
  | none ↦ tid
  | some size ↦
      if ltb 20 size
      then tid
      else parse_sequence stoll (drop (size + 1) text)
          (record tid { start_time = number_or_zero (stoll (take size text)) })
]

-- The trace id of the span, read from a text; a field that is refused ends the reading.
unfoldable pub parse_trace_id : (Bytes → Option ℤ) → Bytes → TraceId → TraceId
unfolding parse_start_time
parse_trace_id stoll txid tid = elim (find_if is_caret txid) [
  | none ↦ tid
  | some pos1 ↦
      if ltb 24 pos1
      then tid
      else parse_start_time stoll (drop (pos1 + 1) txid) (record tid { agent_id = take pos1 txid })
]
