-- ===== src/Http/Proxy/Parse.antt =====
-- What `parseProxyHeaderInline` reads back, and that its loop ends.
use pinpoint_cpp_agent.Common.{
  ℕ, zero, suc, ◌+◌, ◌≤◌, ◌<◌, ◌≡◌, inl, inr, refl, sym, Bool, not, Option, none, some, List, [],
  ◌∷◌, arith, length, take, drop, Bytes, find_if, Option-cases,
}
use pinpoint_cpp_agent.Http.Proxy.{
  ProxyHeaderValues, is_space, is_equals, value_step, field_step, parse_step, parse_loop,
}

length-drop : {A : Type 0} (n : ℕ) (s : List A) → length (drop n s) ≤ length s
length-drop zero s = omega arith
length-drop (suc n) [] = omega arith
length-drop (suc n) (a ∷ s) = omega (arith, length-drop n s)

length-drop-lt :
    {A : Type 0} (n : ℕ) (s : List A) → 1 ≤ length s → length (drop (n + 1) s) < length s
length-drop-lt n [] h = absurd (omega arith)
length-drop-lt n (a ∷ s) h =
    let e : n + 1 ≡ suc n = omega arith in rw e (omega (arith, length-drop n s))

found_not_empty :
    {A : Type 0} (p : A → Bool) (s : List A) (i : ℕ) → find_if p s ≡ some i → 1 ≤ length s
unfolding find_if
found_not_empty p [] i h = absurd (ground arith)
found_not_empty p (a ∷ s) i h = omega arith

value_step-le :
    (key behind : Bytes) (result : ProxyHeaderValues)
    → length (value_step key behind result).0 ≤ length behind
unfolding value_step
value_step-le key behind result = elim (Option-cases (find_if is_space behind)) [
  | inl e ↦ rw (value_step, e) (omega arith)
  | inr (val_end, e) ↦ rw (value_step, e) (length-drop val_end behind)
]

-- Each round takes something away.
field_step-shorter :
    (text : Bytes) (result : ProxyHeaderValues) (next : Bytes × ProxyHeaderValues)
    → field_step text result ≡ some next
    → length next.0 < length text
unfolding field_step
field_step-shorter text result next h = elim (Option-cases (find_if is_equals text)) [
  | inl e ↦ let h' : ◌≡◌ {A = Option (Bytes × ProxyHeaderValues)} none (some next) = cc in cc
  | inr (eq_pos, e) ↦
      let h' : some (value_step (take eq_pos text) (drop (eq_pos + 1) text) result) ≡ some next =
        cc in
      let same : value_step (take eq_pos text) (drop (eq_pos + 1) text) result ≡ next = cc in
      rw (sym same) (
        omega (
          arith,
          value_step-le (take eq_pos text) (drop (eq_pos + 1) text) result,
          length-drop-lt eq_pos text (found_not_empty is_equals text eq_pos e),
        ))
]

parse_step-shorter :
    (value : Bytes) (result : ProxyHeaderValues) (next : Bytes × ProxyHeaderValues)
    → parse_step value result ≡ some next
    → length next.0 < length value
unfolding parse_step
parse_step-shorter value result next h =
    elim (Option-cases (find_if (λ c. not (is_space c)) value)) [
      | inl e ↦ let h' : ◌≡◌ {A = Option (Bytes × ProxyHeaderValues)} none (some next) = cc in cc
      | inr (start, e) ↦
          let h' : field_step (drop start value) result ≡ some next = cc in
          omega
            (arith, field_step-shorter (drop start value) result next h', length-drop start value)
    ]

pub no_step : (result : ProxyHeaderValues) → parse_step [] result ≡ none
unfolding parse_step find_if
no_step result = refl

-- How the `while` loop goes on from a text and ends with a result, in as many rounds as it takes.
pub data Ends : Bytes → ProxyHeaderValues → ProxyHeaderValues → Type 0 where
  breaks :
      (value : Bytes) (result : ProxyHeaderValues)
      → parse_step value result ≡ none
      → Ends value result result
  goes_on :
      (value : Bytes) (result : ProxyHeaderValues) (next : Bytes × ProxyHeaderValues)
      (end : ProxyHeaderValues)
      → parse_step value result ≡ some next
      → Ends next.0 next.1 end
      → Ends value result end

-- The loop over a header ends, with the values that as many rounds as the header has bytes give,
-- or more.
pub parse_loop-Ends :
    (n : ℕ) (value : Bytes) (result : ProxyHeaderValues)
    → length value ≤ n
    → Ends value result (parse_loop n value result)
unfolding parse_loop
parse_loop-Ends zero [] result h = breaks [] result (no_step result)
parse_loop-Ends zero (c ∷ s) result h = absurd (omega arith)
parse_loop-Ends (suc n) value result h = elim (Option-cases (parse_step value result)) [
  | inl e ↦ rw (parse_loop, e) (breaks value result e)
  | inr (next, e) ↦
      let shorter = parse_step-shorter value result next e in
      rw (parse_loop, e)
        (goes_on value result next _ e (parse_loop-Ends n next.0 next.1 (omega arith)))
]
