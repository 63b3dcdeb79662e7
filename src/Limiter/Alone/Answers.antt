-- ===== src/Limiter/Alone/Answers.antt =====
-- Whatever a thread alone does in `allow`, retries included, it answers as the function does.
use mathlib.Core.Logic.{if_pos}
use mathlib.Core.Path.{subst}
use native.Mathlib.Decide.{ℕ_discrete}
use pinpoint_cpp_agent.Common.{
  ℕ, ◌≡◌, ◌≢◌, refl, sym, ap, ◌∙◌, Bool, true, false, leb, ltb, ◌==◌, arith,
}
use pinpoint_cpp_agent.Limiter.{
  Pc, idle, timed, loaded, owner, stored, ready, taking, done, Limiter, update, epoch_second,
  is_resetting, Step, tick, call_disabled, call, load, reload, current, claim, claim_fails, reset,
  publish, load_bucket, take, take_fails, refuse, give_back,
}
use pinpoint_cpp_agent.Limiter.Solo.{By, Solo, no_step, then_step}
use pinpoint_cpp_agent.Limiter.Alone.{Window, refresh, take_one, allow, window, allow_runs}

module _ (i : ℕ) (s : Limiter) where
  IsEnabled : Type 0
  IsEnabled = s.token ≢ 0

  -- What holds of the atomics where the thread is, when it began in the state `s`.
  Progress : Pc → Window → Type 0
  Progress idle w = w ≡ window s
  Progress (timed now) w = IsEnabled × (now ≡ s.clock) × (w ≡ window s)
  Progress (loaded now epoch) w = IsEnabled × (now ≡ s.clock) × (w ≡ window s) × (epoch ≡ s.epoch)
  Progress (owner now) w =
      IsEnabled
      × (now ≡ s.clock)
      × (leb s.clock (epoch_second s.epoch) ≡ false)
      × (w.token ≡ s.token)
  Progress (stored now) w =
      IsEnabled
      × (now ≡ s.clock)
      × (leb s.clock (epoch_second s.epoch) ≡ false)
      × (w.token ≡ s.token)
      × (w.bucket ≡ s.token)
  Progress ready w = IsEnabled × (w ≡ refresh s.clock (window s))
  Progress (taking bucket) w = IsEnabled × (w ≡ refresh s.clock (window s)) × (bucket ≡ w.bucket)
  Progress (done answer) w =
      (w ≡ (allow s.clock (window s)).0) × (answer ≡ (allow s.clock (window s)).1)

  IsAlone : Limiter → Type 0
  IsAlone t = (t.clock ≡ s.clock) × Progress (t.pc i) (window t)

  -- The place of a thread that has moved.
  advance :
      (t : Limiter) (j : ℕ) (p p' : Pc) (w' : Window)
      → j ≡ i
      → t.pc j ≡ p
      → Progress (t.pc i) (window t)
      → (Progress p (window t) → Progress p' w')
      → Progress (update t.pc j p' i) w'
  advance t j p p' w' same at x go =
      let here : t.pc i ≡ p = ap t.pc (sym same) ∙ at in
      let there : update t.pc j p' i ≡ p' = if_pos (ℕ_discrete i j) (sym same) _ _ in
      subst (λ q. Progress q w') (sym there) (go (subst (λ q. Progress q (window t)) here x))

  Step-IsAlone :
      {t u : Limiter}
      → is_resetting s.epoch ≡ false
      → IsAlone t
      → (st : Step t u) → By i st
      → IsAlone u
  unfolding IsAlone Progress IsEnabled refresh take_one allow
  Step-IsAlone quiet x (tick now h k) by = absurd (ground arith)
  Step-IsAlone {t} quiet (c, x) (call_disabled j at h) by = (
    c,
    advance t j idle (done false) (window t) by at x (λ w.
        let off : (s.token == 0) ≡ true =
          let same : t.token ≡ s.token = ap (λ (v : Window). v.token) w in ground arith in
        rw off (w, refl)),
  )
  Step-IsAlone {t} quiet (c, x) (call j at h) by = (
    c,
    advance t j idle (timed t.clock) (window t) by at x
        (λ w. (λ z. h (ap (λ (v : Window). v.token) w ∙ z), c, w)),
  )
  Step-IsAlone {t} quiet (c, x) (load j now at) by = (
    c,
    advance t j (timed now) (loaded now t.epoch) (window t) by at x
        (λ (on, n, w). (on, n, w, ap (λ (v : Window). v.epoch) w)),
  )
  Step-IsAlone {t} quiet (c, x) (reload j now epoch at h) by = (
    c,
    advance t j (loaded now epoch) (loaded now t.epoch) (window t) by at x
        (λ (on, n, w, e). (on, n, w, ap (λ (v : Window). v.epoch) w)),
  )
  Step-IsAlone {t} quiet (c, x) (current j now epoch at h k) by = (
    c,
    advance t j (loaded now epoch) ready (window t) by at x (λ (on, n, w, e).
        let early : leb s.clock (epoch_second s.epoch) ≡ true = rw (← n, ← e) k in
        (on, rw early w)),
  )
  Step-IsAlone {t} quiet (c, x) (claim j now epoch at h k same) by = (
    c,
    advance t j (loaded now epoch) (owner now) _ by at x
        (λ (on, n, w, e). (on, n, rw (← n, ← e) k, ap (λ (v : Window). v.token) w)),
  )
  Step-IsAlone {t} quiet (c, x) (claim_fails j now epoch at h k) by = (
    c,
    advance t j (loaded now epoch) (loaded now t.epoch) (window t) by at x
        (λ (on, n, w, e). (on, n, w, ap (λ (v : Window). v.epoch) w)),
  )
  Step-IsAlone {t} quiet (c, x) (reset j now at) by =
      (c, advance t j (owner now) (stored now) _ by at x (λ (on, n, late, w). (on, n, late, w, w)))
  Step-IsAlone {t} quiet (c, x) (publish j now at) by =
      (c, advance t j (stored now) ready _ by at x (λ (on, n, late, w, b). (on, rw late cc)))
  Step-IsAlone {t} quiet (c, x) (load_bucket j at) by =
      (c, advance t j ready (taking t.bucket) (window t) by at x (λ (on, w). (on, w, refl)))
  Step-IsAlone {t} quiet (c, x) (take j bucket at h e) by = (
    c,
    advance t j (taking bucket) (done true) _ by at x (λ (on, w, b).
        let off : (s.token == 0) ≡ false = ground arith in
        let left : ltb 0 t.bucket ≡ true = ground arith in rw (off, ← w, left) (cc, refl)),
  )
  Step-IsAlone {t} quiet (c, x) (take_fails j bucket at h) by = (
    c,
    advance t j (taking bucket) (taking t.bucket) (window t) by at x (λ (on, w, b). (on, w, refl)),
  )
  Step-IsAlone {t} quiet (c, x) (refuse j at) by = (
    c,
    advance t j (taking 0) (done false) (window t) by at x (λ (on, w, b).
        let off : (s.token == 0) ≡ false = ground arith in
        let none_left : ltb 0 t.bucket ≡ false = ground arith in
        rw (off, ← w, none_left) (refl, refl)),
  )
  Step-IsAlone quiet x (give_back j answer at) by = absurd (ground arith)

  Solo-IsAlone :
      {t : Limiter} → s.pc i ≡ idle → is_resetting s.epoch ≡ false → Solo i s t → IsAlone t
  unfolding IsAlone Progress
  Solo-IsAlone at quiet no_step = (refl, subst (λ q. Progress q (window s)) (sym at) refl)
  Solo-IsAlone at quiet (then_step r st by) = Step-IsAlone quiet (Solo-IsAlone at quiet r) st by

  -- A thread that calls `allow` when no reset is left unfinished, with no step of another thread
  -- and the clock standing still until it has answered: it has steps to an answer, and whatever
  -- its steps are, retries after compare-and-exchanges that fail for no reason included, it
  -- answers as the function `allow` does and leaves the atomics as that does.
  pub allow_alone :
      s.pc i ≡ idle
      → is_resetting s.epoch ≡ false
      → ((t : Limiter) × Solo i s t × (t.pc i ≡ done (allow s.clock (window s)).1))
        × ((t : Limiter) (answer : Bool)
            → Solo i s t
            → t.pc i ≡ done answer
            → (window t ≡ (allow s.clock (window s)).0) × (answer ≡ (allow s.clock (window s)).1))
  unfolding IsAlone Progress
  allow_alone at quiet =
      let (end, run, w, answered) = allow_runs i s at quiet in
      (
        (end, run, answered),
        λ t answer r ended. subst (λ q. Progress q (window t)) ended (Solo-IsAlone at quiet r).1,
      )
