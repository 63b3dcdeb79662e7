-- ===== src/Limiter/Solo.antt =====
-- Steps of one thread in `allow`, with no step of another thread or of the clock in between.
use pinpoint_cpp_agent.Common.{ℕ, ◌≡◌, true, false}
use pinpoint_cpp_agent.Limiter.{
  Limiter, Step, tick, call_disabled, call, load, reload, current, claim, claim_fails, reset,
  publish, load_bucket, take, take_fails, refuse, give_back, Reach, here, next,
}

-- The step is one of the thread `i` from its call to its answer.
abbrev pub By : ℕ → {s t : Limiter} → Step s t → Type 0
By i (tick now h k) = true ≡ false
By i (call_disabled j at h) = j ≡ i
By i (call j at h) = j ≡ i
By i (load j now at) = j ≡ i
By i (reload j now epoch at h) = j ≡ i
By i (current j now epoch at h k) = j ≡ i
By i (claim j now epoch at h k e) = j ≡ i
By i (claim_fails j now epoch at h k) = j ≡ i
By i (reset j now at) = j ≡ i
By i (publish j now at) = j ≡ i
By i (load_bucket j at) = j ≡ i
By i (take j bucket at h e) = j ≡ i
By i (take_fails j bucket at h) = j ≡ i
By i (refuse j at) = j ≡ i
By i (give_back j answer at) = true ≡ false

pub data Solo (i : ℕ) (s : Limiter) : Limiter → Type 0 where
  no_step : Solo i s s
  then_step : {t u : Limiter} → Solo i s t → (st : Step t u) → By i st → Solo i s u

pub Solo-trans : (i : ℕ) {s t u : Limiter} → Solo i s t → Solo i t u → Solo i s u
Solo-trans i r no_step = r
Solo-trans i r (then_step q st by) = then_step (Solo-trans i r q) st by

pub Solo-Reach : (i : ℕ) {s t : Limiter} → Solo i s t → Reach s t
Solo-Reach i no_step = here
Solo-Reach i (then_step r st by) = next (Solo-Reach i r) st
