-- ===== src/Sampling/Counter.antt =====
-- src/sampling.cpp: how many of a run of calls the counter sampler chooses.
use native.Mathlib.Nat.{div-add-mod, mod-lt, add-zero}
use native.Mathlib.Decide.{dec_lt}
use pinpoint_cpp_agent.Common.{
  ℕ, zero, suc, ◌+◌, ◌*◌, ◌/◌, ◌%◌, ◌^◌, ◌≤◌, ◌<◌, ◌≡◌, refl, sym, ap, false, if◌then◌else◌, arith,
  ◌⊎◌, inl, inr,
}
use pinpoint_cpp_agent.Common.Int.{ℤ, pos, negsuc}
use pinpoint_cpp_agent.Sampling.{counter_sampled}

unfoldable pub counter_calls : ℤ → ℕ → ℕ → ℕ × ℕ
unfolding counter_sampled
counter_calls rate zero count = (count, 0)
counter_calls rate (suc n) count =
    let (count', sampled) = counter_sampled rate count in
    let (last, hits) = counter_calls rate n count' in (last, if sampled then hits + 1 else hits)

times_mono : (d a b : ℕ) → a ≤ b → d * a ≤ d * b
times_mono d a b h = grind arith

quot_le : (d a b x y : ℕ) → d * a + x ≡ d * b + y → y < d → a ≤ b
quot_le d a b x y e small = elim (dec_lt b a) [
  | yes above ↦ absurd (omega (arith, times_mono d (b + 1) a (omega arith)))
  | no h ↦ omega arith
]

quot_unique : (d a b x y : ℕ) → d * a + x ≡ d * b + y → x < d → y < d → a ≡ b
quot_unique d a b x y e hx hy = omega (arith, quot_le d a b x y e hy, quot_le d b a y x (sym e) hx)

-- The next number has the next quotient exactly when it is a multiple.
div_suc :
    (r c : ℕ)
    → (((c + 1) % suc r ≡ 0) × ((c + 1) / suc r ≡ c / suc r + 1))
      ⊎ ((0 < (c + 1) % suc r) × ((c + 1) / suc r ≡ c / suc r))
div_suc r c =
    let d = suc r in
    let now = div-add-mod c d in
    let then_ = div-add-mod (c + 1) d in
    let small = mod-lt c {m = d} (omega arith) in
    let small' = mod-lt (c + 1) {m = d} (omega arith) in
    elim (dec_lt (c % d + 1) d) [
      | yes room ↦
          let same : (c + 1) / d ≡ c / d =
            quot_unique d ((c + 1) / d) (c / d) ((c + 1) % d) (c % d + 1) (omega arith) small'
              room in
          inr (omega (arith, ap (λ (x : ℕ). d * x) same), same)
      | no full ↦
          let next : (c + 1) / d ≡ c / d + 1 =
            quot_unique d ((c + 1) / d) (c / d + 1) ((c + 1) % d) 0 (omega arith) small'
              (omega arith) in
          inl (omega (arith, ap (λ (x : ℕ). d * x) next), next)
    ]

counter_total :
    (r n count : ℕ)
    → count + n < 2 ^ 64
    → (counter_calls (pos (suc r)) n count).1 + count / suc r ≡ (count + n) / suc r
unfolding counter_calls
counter_total r zero count fits = rw add-zero (omega arith)
counter_total r (suc n) count fits =
    let ih = counter_total r n (count + 1) (omega arith) in ground (arith, ih, div_suc r count)

-- In any run of as many calls as the rate, as long as the counter does not wrap around, the
-- sampler chooses exactly one.
pub counter_window :
    (rate count n : ℕ)
    → n ≡ rate
    → 0 < rate
    → count + n < 2 ^ 64
    → (counter_calls (pos rate) n count).1 ≡ 1
counter_window zero count n e h fits = absurd (omega arith)
counter_window (suc r) count n e h fits =
    let d = suc r in
    let now = div-add-mod count d in
    let later = div-add-mod (count + n) d in
    let small = mod-lt count {m = d} h in
    let small' = mod-lt (count + n) {m = d} h in
    let up : (count + n) / d ≡ count / d + 1 =
      quot_unique d ((count + n) / d) (count / d + 1) ((count + n) % d) (count % d) (omega arith)
        small' small in
    omega (arith, counter_total r n count fits, up)

-- A rate of 0 or below chooses no call and leaves the counter alone.
pub counter_disabled :
    (count n : ℕ)
    → (counter_sampled (pos 0) count ≡ (count, false))
      × (counter_sampled (negsuc n) count ≡ (count, false))
unfolding counter_sampled
counter_disabled count n = (refl, refl)
