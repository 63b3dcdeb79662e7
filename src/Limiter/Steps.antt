-- ===== src/Limiter/Steps.antt =====
-- Every step of the limiter keeps its invariant.
use pinpoint_cpp_agent.Common.{
  ℕ, ◌+◌, ◌-◌, ◌*◌, ◌/◌, ◌%◌, ◌^◌, ◌≤◌, ◌<◌, ◌≡◌, refl, true, false, leb, arith, Bool-cases, inl,
  inr,
}
use pinpoint_cpp_agent.Limiter.{
  idle, timed, loaded, owner, stored, ready, taking, done, Limiter, update, init, epoch_state,
  epoch_second, is_resetting, set_resetting, Step, tick, call_disabled, call, load, reload, current,
  claim, claim_fails, reset, publish, load_bucket, take, take_fails, refuse, give_back,
}
use pinpoint_cpp_agent.Limiter.Invariant.{
  resets_now, Fits, IsSound, Fits-Same, Fits-plain, Fits-odd, Fits-at, each_thread, single_plain,
  single_only, others_plain, move-IsSound,
}

pub init-IsSound : (tps now : ℕ) → now < 2 ^ 63 → IsSound (init tps now)
unfolding init
init-IsSound tps now small = record {
  in_range = small;
  past = omega arith;
  counted = omega arith;
  epoch_le = omega arith;
  resets_le = λ _. omega arith;
  settled = λ _. refl;
  threads = λ i. tt;
  single = λ i j h. absurd (ground arith);
}

tick-IsSound :
    {s : Limiter} (now : ℕ)
    → s.clock ≤ now
    → now < 2 ^ 63
    → IsSound s
    → IsSound (record s { clock = now })
tick-IsSound {s} now later small h = record {
  in_range = small;
  past = omega (arith, h.past);
  counted = h.counted;
  epoch_le = omega (arith, h.epoch_le);
  resets_le = h.resets_le;
  settled = h.settled;
  threads = λ i.
      Fits-Same s (record s { clock = now }) (later, refl, refl, refl, refl) (s.pc i) (h.threads i);
  single = h.single;
}

claim-IsSound :
    {s : Limiter} (i now epoch : ℕ)
    → s.pc i ≡ loaded now epoch
    → is_resetting epoch ≡ false
    → leb now (epoch_second epoch) ≡ false
    → s.epoch ≡ epoch
    → IsSound s
    → IsSound (record s { epoch = set_resetting epoch; pc = update s.pc i (owner now) })
unfolding is_resetting epoch_second set_resetting
claim-IsSound {s} i now epoch at even late same h =
    let is_even : s.epoch % 2 ≡ 0 = ground arith in
    let done_before = h.settled is_even in
    let t : Limiter = record s { epoch = epoch / 2 * 2 + 1; pc = update s.pc i (owner now) } in
    let plain = λ (j : ℕ).
      elim (Bool-cases (resets_now (s.pc j))) as (λ _. resets_now (s.pc j) ≡ false) [
        | inl r ↦ absurd (omega (arith, Fits-odd s (s.pc j) r (h.threads j)))
        | inr r ↦ r
      ] in
    record {
      in_range = h.in_range;
      past = h.past;
      counted = h.counted;
      epoch_le = omega (arith, h.epoch_le);
      resets_le = λ p. omega (arith, h.resets_le p);
      settled = λ p. done_before;
      threads =
          each_thread s.pc i (owner now) (Fits t)
            (Fits-at i (loaded now epoch) h at, omega arith, ground arith, done_before)
            (λ j n. Fits-plain s t (omega arith) (s.pc j) (plain j) (h.threads j));
      single = single_only s.pc i (owner now) (λ j n. plain j);
    }

reset-IsSound :
    {s : Limiter} (i now : ℕ)
    → s.pc i ≡ owner now
    → IsSound s
    → IsSound (record s {
      bucket = s.token;
      pc = update s.pc i (stored now);
      resets = s.resets + 1;
      published = false;
    })
reset-IsSound {s} i now at h =
    let t : Limiter = record s {
      bucket = s.token;
      pc = update s.pc i (stored now);
      resets = s.resets + 1;
      published = false;
    } in
    let (come, odd, later, pub_) = Fits-at {s = s} i (owner now) h at in
    let plain = others_plain i h (ground arith) in
    record {
      in_range = h.in_range;
      past = omega (arith, h.resets_le pub_);
      counted = omega (arith, h.counted);
      epoch_le = h.epoch_le;
      resets_le = λ p. absurd (ground arith);
      settled = λ p. absurd (omega arith);
      threads =
          each_thread s.pc i (stored now) (Fits t)
            (come, odd, later, omega (arith, h.resets_le pub_))
            (λ j n. Fits-plain s t (omega arith) (s.pc j) (plain j n) (h.threads j));
      single = single_only s.pc i (stored now) plain;
    }

publish-IsSound :
    {s : Limiter} (i now : ℕ)
    → s.pc i ≡ stored now
    → IsSound s
    → IsSound (record s { epoch = epoch_state now; pc = update s.pc i ready; published = true })
unfolding epoch_state
publish-IsSound {s} i now at h =
    let t : Limiter = record s {
      epoch = (now * 2) % 2 ^ 64;
      pc = update s.pc i ready;
      published = true;
    } in
    let (come, odd, later, lag) = Fits-at {s = s} i (stored now) h at in
    let plain = others_plain i h (ground arith) in
    record {
      in_range = h.in_range;
      past = h.past;
      counted = h.counted;
      epoch_le = omega (arith, h.in_range);
      resets_le = λ p. omega (arith, h.in_range);
      settled = λ p. refl;
      threads =
          each_thread s.pc i ready (Fits t) tt
            (λ j n. Fits-plain s t (omega arith) (s.pc j) (plain j n) (h.threads j));
      single = single_plain s.pc i ready refl h.single;
    }

take-IsSound :
    {s : Limiter} (i bucket : ℕ)
    → 0 < bucket
    → s.bucket ≡ bucket
    → IsSound s
    → IsSound
        (record s { bucket = bucket - 1; pc = update s.pc i (done true); granted = s.granted + 1 })
take-IsSound {s} i bucket some_left same h = record {
  in_range = h.in_range;
  past = h.past;
  counted = omega (arith, h.counted);
  epoch_le = h.epoch_le;
  resets_le = h.resets_le;
  settled = h.settled;
  threads = λ j. each_thread s.pc i (done true) (Fits s) tt (λ k n. h.threads k) j;
  single = single_plain s.pc i (done true) refl h.single;
}

pub Step-IsSound : {s t : Limiter} → Step s t → IsSound s → IsSound t
Step-IsSound (tick now later small) h = tick-IsSound now later small h
Step-IsSound (call_disabled i at none) h = move-IsSound i (done false) h tt refl
Step-IsSound {s} (call i at some_token) h = move-IsSound i (timed s.clock) h (omega arith) refl
Step-IsSound {s} (load i now at) h =
    move-IsSound i (loaded now s.epoch) h (Fits-at i (timed now) h at) refl
Step-IsSound {s} (reload i now epoch at r) h =
    move-IsSound i (loaded now s.epoch) h (Fits-at i (loaded now epoch) h at) refl
Step-IsSound (current i now epoch at r c) h = move-IsSound i ready h tt refl
Step-IsSound (claim i now epoch at r c e) h = claim-IsSound i now epoch at r c e h
Step-IsSound {s} (claim_fails i now epoch at r c) h =
    move-IsSound i (loaded now s.epoch) h (Fits-at i (loaded now epoch) h at) refl
Step-IsSound (reset i now at) h = reset-IsSound i now at h
Step-IsSound (publish i now at) h = publish-IsSound i now at h
Step-IsSound {s} (load_bucket i at) h = move-IsSound i (taking s.bucket) h tt refl
Step-IsSound (take i b at p e) h = take-IsSound i b p e h
Step-IsSound {s} (take_fails i b at p) h = move-IsSound i (taking s.bucket) h tt refl
Step-IsSound (refuse i at) h = move-IsSound i (done false) h tt refl
Step-IsSound (give_back i a at) h = move-IsSound i idle h tt refl
