-- ===== src/TraceId/Tests.antt =====
-- Trace ids on concrete inputs.
use pinpoint_cpp_agent.Common.{
  ◌≡◌, refl, Option, none, some, [], ◌∷◌, codes, Bytes, arith, find_if, if◌then◌else◌, ◌==◌,
}
use pinpoint_cpp_agent.Common.Int.{ℤ, pos, negsuc, sub_ℕ}
use pinpoint_cpp_agent.Sql.{decimal, parse_index}
use pinpoint_cpp_agent.TraceId.RoundTrip.{parse_trace_id-to_string}
use pinpoint_cpp_agent.TraceId.{TraceId, no_trace, to_chars, to_string, parse_trace_id}

abbrev trace : TraceId
trace = record { agent_id = codes "app"; start_time = pos 1700; sequence = negsuc 0 }

written : to_string trace ≡ codes "app^1700^-1"
unfolding to_string decimal
written = refl

refused :
    parse_trace_id (λ text. some (pos 1)) (codes "app^12") no_trace
    ≡ record no_trace { agent_id = codes "app" }
unfolding parse_trace_id find_if
refused = refl

-- a number parser for decimal texts
abbrev read_number : Bytes → Option ℤ
read_number [] = none
read_number (c ∷ text) =
    if c == b'-'
    then elim (parse_index text) [ none ↦ none | some n ↦ some (sub_ℕ 0 n) ]
    else elim (parse_index (c ∷ text)) [ none ↦ none | some n ↦ some (pos n) ]

reads_start : read_number (to_chars (pos 1700)) ≡ some (pos 1700)
unfolding decimal parse_index
reads_start = refl

reads_sequence : read_number (to_chars (negsuc 0)) ≡ some (negsuc 0)
unfolding decimal parse_index
reads_sequence = refl

parse_trace_id-to_string_example : parse_trace_id read_number (to_string trace) no_trace ≡ trace
parse_trace_id-to_string_example =
    parse_trace_id-to_string read_number trace no_trace reads_start reads_sequence
      (refl, (refl, (refl, tt))) (omega arith) (omega arith, omega arith) (omega arith, omega arith)
