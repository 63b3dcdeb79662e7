-- ===== src/Limiter/Invariant.antt =====
-- What every step of the limiter keeps, on every interleaving.
use mathlib.Core.Logic.{if_pos, if_neg}
use mathlib.Core.Path.{subst}
use native.Mathlib.Decide.{ℕ_discrete}
use pinpoint_cpp_agent.Common.{
  ℕ, ◌+◌, ◌*◌, ◌/◌, ◌%◌, ◌^◌, ◌≤◌, ◌<◌, ◌≡◌, ◌≢◌, refl, Bool, true, false, arith,
}
use pinpoint_cpp_agent.Limiter.{
  Pc, idle, timed, loaded, owner, stored, ready, taking, done, Limiter, update,
}

-- A thread between its claim of a reset and the publication.
abbrev pub resets_now : Pc → Bool
resets_now (owner now) = true
resets_now (stored now) = true
resets_now _ = false

-- What is known of one thread: its second has come, a reset in progress is marked in the epoch
-- and goes to a later second, and a claimed reset has not been counted yet.
abbrev pub Fits : Limiter → Pc → Type 0
Fits s (timed now) = now ≤ s.clock
Fits s (loaded now epoch) = now ≤ s.clock
Fits s (owner now) =
    (now ≤ s.clock) × (s.epoch % 2 ≡ 1) × (s.epoch / 2 < now) × (s.published ≡ true)
Fits s (stored now) =
    (now ≤ s.clock) × (s.epoch % 2 ≡ 1) × (s.epoch / 2 < now) × (s.made + s.resets ≤ now)
Fits s _ = Unit

pub record IsSound (s : Limiter) : Type 0 where
  pub in_range : s.clock < 2 ^ 63
  pub past : s.made + s.resets ≤ s.clock
  pub counted : s.granted + s.bucket ≤ s.token * (1 + s.resets)
  pub epoch_le : s.epoch / 2 ≤ s.clock
  pub resets_le : s.published ≡ true → s.made + s.resets ≤ s.epoch / 2
  pub settled : s.epoch % 2 ≡ 0 → s.published ≡ true
  pub threads : (i : ℕ) → Fits s (s.pc i)
  pub single : (i j : ℕ) → resets_now (s.pc i) ≡ true → resets_now (s.pc j) ≡ true → i ≡ j

-- What a step leaves alone for the other threads.
abbrev pub Same : Limiter → Limiter → Type 0
Same s t =
    (s.clock ≤ t.clock)
    × (t.epoch ≡ s.epoch)
    × (t.published ≡ s.published)
    × (t.made ≡ s.made)
    × (t.resets ≡ s.resets)

pub Fits-Same : (s t : Limiter) → Same s t → (p : Pc) → Fits s p → Fits t p
Fits-Same s t e idle h = tt
Fits-Same s t e (timed now) h = omega arith
Fits-Same s t e (loaded now epoch) h = omega arith
Fits-Same s t e (owner now) h = ground arith
Fits-Same s t e (stored now) h = ground arith
Fits-Same s t e ready h = tt
Fits-Same s t e (taking b) h = tt
Fits-Same s t e (done a) h = tt

pub Fits-plain :
    (s t : Limiter) → s.clock ≤ t.clock → (p : Pc) → resets_now p ≡ false → Fits s p → Fits t p
Fits-plain s t e idle r h = tt
Fits-plain s t e (timed now) r h = omega arith
Fits-plain s t e (loaded now epoch) r h = omega arith
Fits-plain s t e (owner now) r h = absurd (ground arith)
Fits-plain s t e (stored now) r h = absurd (ground arith)
Fits-plain s t e ready r h = tt
Fits-plain s t e (taking b) r h = tt
Fits-plain s t e (done a) r h = tt

-- While a reset is in progress the epoch says so.
pub Fits-odd : (s : Limiter) (p : Pc) → resets_now p ≡ true → Fits s p → s.epoch % 2 ≡ 1
Fits-odd s (owner now) r h = h.1
Fits-odd s (stored now) r h = h.1
Fits-odd s idle r h = absurd (ground arith)
Fits-odd s (timed now) r h = absurd (ground arith)
Fits-odd s (loaded now epoch) r h = absurd (ground arith)
Fits-odd s ready r h = absurd (ground arith)
Fits-odd s (taking b) r h = absurd (ground arith)
Fits-odd s (done a) r h = absurd (ground arith)

pub Fits-at : {s : Limiter} (i : ℕ) (p : Pc) → IsSound s → s.pc i ≡ p → Fits s p
Fits-at {s} i p h e = subst (Fits s) e (h.threads i)

module _ (pc : ℕ → Pc) (i : ℕ) (p : Pc) where
  -- Every thread but `i` is where it was.
  pub each_thread :
      (P : Pc → Type 0) → P p → ((j : ℕ) → j ≢ i → P (pc j)) → (j : ℕ) → P (update pc i p j)
  each_thread P here rest j = elim (ℕ_discrete j i) [
    | yes e ↦ rw (if_pos (ℕ_discrete j i) e) here
    | no n ↦ rw (if_neg (ℕ_discrete j i) n) (rest j n)
  ]

  -- A thread that leaves a reset, or never was in one, adds no second one.
  pub single_plain :
      resets_now p ≡ false
      → ((j k : ℕ) → resets_now (pc j) ≡ true → resets_now (pc k) ≡ true → j ≡ k)
      → (j k : ℕ) → resets_now (update pc i p j) ≡ true
      → resets_now (update pc i p k) ≡ true
      → j ≡ k
  single_plain plain h j k = ground (arith, h j k)

  -- A thread may enter or go on with a reset if no other is in one.
  pub single_only :
      ((j : ℕ) → j ≢ i → resets_now (pc j) ≡ false)
      → (j k : ℕ) → resets_now (update pc i p j) ≡ true
      → resets_now (update pc i p k) ≡ true
      → j ≡ k
  single_only none j k = ground (arith, none j, none k)

-- No other thread is in a reset while thread `i` is.
pub others_plain :
    {s : Limiter} (i : ℕ)
    → IsSound s
    → resets_now (s.pc i) ≡ true
    → (j : ℕ) → j ≢ i
    → resets_now (s.pc j) ≡ false
others_plain {s} i h r j n = ground (arith, h.single j i)

-- A step that only moves a thread to a place outside the resets.
pub move-IsSound :
    {s : Limiter} (i : ℕ) (p : Pc)
    → IsSound s
    → Fits s p
    → resets_now p ≡ false
    → IsSound (record s { pc = update s.pc i p })
move-IsSound {s} i p h fits plain = record {
  in_range = h.in_range;
  past = h.past;
  counted = h.counted;
  epoch_le = h.epoch_le;
  resets_le = h.resets_le;
  settled = h.settled;
  threads =
      λ j. Fits-Same s t same (t.pc j) (each_thread s.pc i p (Fits s) fits (λ k n. h.threads k) j);
  single = single_plain s.pc i p plain h.single;
}
  where
    t : Limiter
    t = record s { pc = update s.pc i p }

    same : Same s t
    same = (omega arith, refl, refl, refl, refl)
