-- ===== src/Limiter/Alone.antt =====
-- src/limiter.cpp: `allow` by a thread that no other thread interrupts, as one function on the
-- atomics, and the steps of `Limiter` that carry it out.
pub mod Answers
use mathlib.Core.Logic.{if_pos}
use native.Mathlib.Decide.{ℕ_discrete}
use pinpoint_cpp_agent.Common.{
  ℕ, zero, suc, ◌+◌, ◌-◌, ◌^◌, ◌≤◌, ◌<◌, ◌≡◌, ◌≢◌, refl, ap, ◌∙◌, Bool, true, false, leb, ltb, ◌==◌,
  if◌then◌else◌, arith, min, Bool-cases, inl, inr,
}
use pinpoint_cpp_agent.Limiter.{
  idle, timed, loaded, owner, stored, ready, taking, done, Limiter, update, epoch_state,
  epoch_second, is_resetting, set_resetting,
}
use pinpoint_cpp_agent.Limiter
use pinpoint_cpp_agent.Limiter.Solo.{Solo, no_step, then_step, Solo-trans}

pub record Window : Type 0 where
  pub token : ℕ
  pub epoch : ℕ
  pub bucket : ℕ

-- the first loop: a later second fills the bucket
unfoldable pub refresh : ℕ → Window → Window
unfolding epoch_second epoch_state
refresh now w =
    if leb now (epoch_second w.epoch)
    then w
    else record w { epoch = epoch_state now; bucket = w.token }

-- the second loop
unfoldable pub take_one : Window → Window × Bool
take_one w = if ltb 0 w.bucket then (record w { bucket = w.bucket - 1 }, true) else (w, false)

unfoldable pub allow : ℕ → Window → Window × Bool
unfolding refresh take_one
allow now w = if w.token == 0 then (w, false) else take_one (refresh now w)

-- `n` calls in the second `now`, and how many of them are granted
unfoldable pub calls : ℕ → ℕ → Window → Window × ℕ
unfolding allow
calls zero now w = (w, 0)
calls (suc n) now w =
    let (w', granted) = allow now w in
    let (w'', count) = calls n now w' in (w'', if granted then count + 1 else count)

calls_current :
    (n now : ℕ) (w : Window)
    → w.token ≢ 0
    → now ≤ epoch_second w.epoch
    → (calls n now w).1 ≡ min n w.bucket
unfolding calls
calls_current zero now w some_token current = omega arith
calls_current (suc n) now w some_token current = ground (
  arith,
  calls_current n now w some_token current,
  calls_current n now (record w { bucket = w.bucket - 1 }) some_token current,
)

calls_disabled : (n now : ℕ) (w : Window) → w.token ≡ 0 → (calls n now w).1 ≡ 0
unfolding calls
calls_disabled zero now w h = refl
calls_disabled (suc n) now w h = ground (arith, calls_disabled n now w h)

-- In a second that the limiter has not seen yet, a thread alone is granted its first `token`
-- calls and no more.
pub calls_new_second :
    (n now : ℕ) (w : Window)
    → now < 2 ^ 63
    → epoch_second w.epoch < now
    → (calls n now w).1 ≡ min n w.token
unfolding calls
calls_new_second zero now w small new = omega arith
calls_new_second (suc n) now w small new =
    let filled : Window = record w { epoch = epoch_state now; bucket = w.token } in
    ground
      (arith, calls_disabled n now w, calls_current n now (record filled { bucket = w.token - 1 }))

-- the atomics of the object
abbrev pub window : Limiter → Window
window s = record { token = s.token; epoch = s.epoch; bucket = s.bucket }

module _ (i : ℕ) where
  pub here_at : (s : Limiter) (p : Limiter.Pc) → (record s { pc = update s.pc i p }).pc i ≡ p
  here_at s p = if_pos (ℕ_discrete i i) refl _ _

  -- The second loop, by the thread `i` alone.
  take_alone :
      (s : Limiter)
      → s.pc i ≡ ready
      → (t : Limiter) × Solo i s t
        × (window t ≡ (take_one (window s)).0)
        × (t.pc i ≡ done (take_one (window s)).1)
  unfolding take_one
  take_alone s at = elim (Bool-cases (ltb 0 s.bucket)) [
    | inl left ↦
        let a : Limiter = record s { pc = update s.pc i (taking s.bucket) } in
        let b : Limiter = record a {
          bucket = s.bucket - 1;
          pc = update a.pc i (done true);
          granted = s.granted + 1;
        } in
        (
          b,
          then_step (then_step no_step (Limiter.load_bucket i at) refl)
              (Limiter.take i s.bucket (here_at s (taking s.bucket)) (ground arith) refl) refl,
          rw left,
          rw left (here_at a (done true)),
        )
    | inr none_left ↦
        let a : Limiter = record s { pc = update s.pc i (taking s.bucket) } in
        let e : s.bucket ≡ 0 = ground arith in
        (
          record a { pc = update a.pc i (done false) },
          then_step (then_step no_step (Limiter.load_bucket i at) refl)
              (Limiter.refuse i (rw (here_at s (taking s.bucket)) (ap taking e))) refl,
          rw none_left,
          rw none_left (here_at a (done false)),
        )
  ]

  -- The first loop, by the thread `i` alone, when no reset was left unfinished.
  refresh_alone :
      (s : Limiter) (now : ℕ)
      → s.pc i ≡ loaded now s.epoch
      → is_resetting s.epoch ≡ false
      → (t : Limiter) × Solo i s t × (window t ≡ refresh now (window s)) × (t.pc i ≡ ready)
  unfolding refresh
  refresh_alone s now at quiet = elim (Bool-cases (leb now (epoch_second s.epoch))) [
    | inl current ↦ (
      record s { pc = update s.pc i ready },
      then_step no_step (Limiter.current i now s.epoch at quiet current) refl,
      rw current,
      here_at s ready,
    )
    | inr late ↦
        let a : Limiter = record s {
          epoch = set_resetting s.epoch;
          pc = update s.pc i (owner now);
        } in
        let b : Limiter = record a {
          bucket = s.token;
          pc = update a.pc i (stored now);
          resets = s.resets + 1;
          published = false;
        } in
        (
          record b { epoch = epoch_state now; pc = update b.pc i ready; published = true },
          then_step
              (then_step (then_step no_step (Limiter.claim i now s.epoch at quiet late refl) refl)
                (Limiter.reset i now (here_at s (owner now))) refl)
              (Limiter.publish i now (here_at a (stored now))) refl,
          rw late,
          here_at b ready,
        )
  ]

  -- The steps of a call, when no reset was left unfinished.
  pub allow_runs :
      (s : Limiter)
      → s.pc i ≡ idle
      → is_resetting s.epoch ≡ false
      → (t : Limiter) × Solo i s t
        × (window t ≡ (allow s.clock (window s)).0)
        × (t.pc i ≡ done (allow s.clock (window s)).1)
  unfolding allow
  allow_runs s at quiet = elim (Bool-cases (s.token == 0)) [
    | inl disabled ↦ (
      record s { pc = update s.pc i (done false) },
      then_step no_step (Limiter.call_disabled i at (ground arith)) refl,
      rw disabled,
      rw disabled (here_at s (done false)),
    )
    | inr enabled ↦
        let a : Limiter = record s { pc = update s.pc i (timed s.clock) } in
        let b : Limiter = record a { pc = update a.pc i (loaded s.clock s.epoch) } in
        let (c, r, w, e) = refresh_alone b s.clock (here_at a (loaded s.clock s.epoch)) quiet in
        let (t, r', w', e') = take_alone c e in
        (
          t,
          Solo-trans i
              (then_step (then_step no_step (Limiter.call i at (ground arith)) refl)
                (Limiter.load i s.clock (here_at s (timed s.clock))) refl)
              (Solo-trans i r r'),
          rw enabled (w' ∙ ap (λ (x : Window). (take_one x).0) w),
          rw enabled (e' ∙ ap (λ (x : Window). done (take_one x).1) w),
        )
  ]
