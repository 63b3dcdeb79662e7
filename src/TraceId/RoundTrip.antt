-- ===== src/TraceId/RoundTrip.antt =====
-- A trace id that one agent writes is read back by the next.
use pinpoint_cpp_agent.Common.{
  ℕ, zero, suc, ◌+◌, ◌^◌, ◌/◌, ◌%◌, ◌≤◌, ◌<◌, ◌≡◌, refl, false, Option, some, [], ◌∷◌, ◌++◌, arith,
  ltb, ◌==◌, length, Bytes, NoneOf, find_if-append, take-append, drop-past, Bool-cases, inl, inr,
}
use pinpoint_cpp_agent.Common.Int.{ℤ, pos, negsuc, pos_part, neg_part}
use pinpoint_cpp_agent.Sql.{decimal, digits_from}
use pinpoint_cpp_agent.TraceId.{
  TraceId, to_chars, to_string, is_caret, parse_sequence, parse_start_time, parse_trace_id,
}

digits_from-NoneOf :
    (f n : ℕ) (out : Bytes) → NoneOf is_caret out → NoneOf is_caret (digits_from f n out)
unfolding digits_from
digits_from-NoneOf zero n out h = h
digits_from-NoneOf (suc f) n out h =
    let plain : is_caret (b'0' + n % 10) ≡ false = ground arith in
    elim (Bool-cases (n / 10 == 0)) [
      | inl y ↦ rw y (plain, h)
      | inr m ↦ rw m (digits_from-NoneOf f (n / 10) ((b'0' + n % 10) ∷ out) (plain, h))
    ]

to_chars-NoneOf : (z : ℤ) → NoneOf is_caret (to_chars z)
unfolding decimal
to_chars-NoneOf (pos n) = digits_from-NoneOf (suc n) n [] tt
to_chars-NoneOf (negsuc n) = (refl, digits_from-NoneOf (suc (suc n)) (suc n) [] tt)

-- As many digits as the power of ten above the number says.
digits_from-length :
    (k f n : ℕ) (out : Bytes) → n < 10 ^ suc k → length (digits_from f n out) ≤ suc k + length out
unfolding digits_from
digits_from-length k zero n out h = omega arith
digits_from-length k (suc f) n out h = elim (Bool-cases (n / 10 == 0)) [
  | inl y ↦ rw y (omega arith)
  | inr m ↦
      rw m (more k h (ground arith) (λ j. digits_from-length j f (n / 10) ((b'0' + n % 10) ∷ out)))
]
  where
    more :
        (k : ℕ)
        → n < 10 ^ suc k
        → 1 ≤ n / 10
        → ((j : ℕ)
            → n / 10 < 10 ^ suc j
            → length (digits_from f (n / 10) ((b'0' + n % 10) ∷ out))
              ≤ suc j + length ((b'0' + n % 10) ∷ out))
        → length (digits_from f (n / 10) ((b'0' + n % 10) ∷ out)) ≤ suc k + length out
    more zero h big go = absurd (omega arith)
    more (suc j) h big go = omega (arith, go j (omega arith))

-- the range of `int64_t`
abbrev pub Int64 : ℤ → Type 0
Int64 z = (pos_part z < 2 ^ 63) × (neg_part z ≤ 2 ^ 63)

to_chars-length : (z : ℤ) → Int64 z → length (to_chars z) ≤ 20
unfolding decimal
to_chars-length (pos n) h = omega (arith, digits_from-length 18 (suc n) n [] (omega arith))
to_chars-length (negsuc n) h =
    omega (arith, digits_from-length 18 (suc (suc n)) (suc n) [] (omega arith))

parse_start_time-to_chars :
    (stoll : Bytes → Option ℤ) (tid : TraceId) (start sequence : ℤ)
    → length (to_chars start) ≤ 20
    → length (to_chars sequence) ≤ 20
    → stoll (to_chars start) ≡ some start
    → stoll (to_chars sequence) ≡ some sequence
    → parse_start_time stoll (to_chars start ++ b'^' ∷ to_chars sequence) tid
      ≡ record tid { start_time = start; sequence = sequence }
unfolding parse_start_time parse_sequence
parse_start_time-to_chars stoll tid start sequence h k e f =
    let text = to_chars start in
    let short : ltb 20 (length text) ≡ false = ground arith in
    let short' : ltb 20 (length (to_chars sequence)) ≡ false = ground arith in
    cc (
      find_if-append is_caret text (to_chars sequence) b'^' (to_chars-NoneOf start) refl,
      short,
      short',
      take-append text (b'^' ∷ to_chars sequence),
      drop-past text (to_chars sequence) b'^',
      e,
      f,
    )

-- A trace id whose agent id has at most 24 bytes and no `^`, and whose numbers are 64-bit, is
-- read back from its text, whatever trace id the span had before, if the number parser reads
-- back the two numbers as `std::to_chars` writes them.
pub parse_trace_id-to_string :
    (stoll : Bytes → Option ℤ) (tid before : TraceId)
    → stoll (to_chars tid.start_time) ≡ some tid.start_time
    → stoll (to_chars tid.sequence) ≡ some tid.sequence
    → NoneOf is_caret tid.agent_id
    → length tid.agent_id ≤ 24
    → Int64 tid.start_time
    → Int64 tid.sequence
    → parse_trace_id stoll (to_string tid) before ≡ tid
unfolding parse_trace_id to_string
parse_trace_id-to_string stoll tid before reads_start reads_sequence plain short h k =
    let rest = to_chars tid.start_time ++ b'^' ∷ to_chars tid.sequence in
    let fits : ltb 24 (length tid.agent_id) ≡ false = ground arith in
    cc (
      find_if-append is_caret tid.agent_id rest b'^' plain refl,
      fits,
      take-append tid.agent_id (b'^' ∷ rest),
      drop-past tid.agent_id rest b'^',
      parse_start_time-to_chars stoll (record before { agent_id = tid.agent_id }) tid.start_time
          tid.sequence (to_chars-length tid.start_time h) (to_chars-length tid.sequence k)
          reads_start reads_sequence,
    )
