-- ===== src/Limiter.antt =====
-- src/limiter.h and src/limiter.cpp: `RateLimiter`. `allow` runs on any number of threads, as
-- steps on the two atomics; a weak compare-and-exchange may fail at any time. The clock is the
-- environment's: it may go on at any step, and is read by a thread once in a call. A second fits
-- 63 bits, so that `second << 1` loses nothing.
pub mod Invariant
mod Steps
pub mod Bound
mod Solo
pub mod Alone
pub mod Tests
use mathlib.Core.Logic.{ite}
use native.Mathlib.Decide.{ℕ_discrete}
use pinpoint_cpp_agent.Common.{
  ℕ, zero, suc, ◌+◌, ◌-◌, ◌*◌, ◌/◌, ◌%◌, ◌^◌, ◌≤◌, ◌<◌, ◌≡◌, ◌≢◌, Bool, true, false, not, leb, ltb,
  ◌==◌, if◌then◌else◌,
}

-- The low bit of the epoch is `kResetInProgress`, the others hold the second.
unfoldable pub epoch_state : ℕ → ℕ
epoch_state second = (second * 2) % 2 ^ 64

unfoldable pub epoch_second : ℕ → ℕ
epoch_second state = state / 2

unfoldable pub is_resetting : ℕ → Bool
is_resetting state = not (state % 2 == 0)

-- `epoch | kResetInProgress`
unfoldable pub set_resetting : ℕ → ℕ
set_resetting state = state / 2 * 2 + 1

-- Where a thread is in `allow`, with its local variables.
pub data Pc : Type 0 where
  idle : Pc
  timed : ℕ → Pc
  loaded : ℕ → ℕ → Pc
  owner stored : ℕ → Pc
  ready : Pc
  taking : ℕ → Pc
  done : Bool → Pc

-- The object, the clock and the threads. The last four fields are no state of the code: the tokens
-- granted, the resets of the bucket, whether the last reset is published in the epoch, and the
-- second in which the limiter was made.
pub record Limiter : Type 0 where
  pub token : ℕ
  pub epoch : ℕ
  pub bucket : ℕ
  pub clock : ℕ
  pub pc : ℕ → Pc
  pub granted : ℕ
  pub resets : ℕ
  pub published : Bool
  pub made : ℕ

abbrev pub update : (ℕ → Pc) → ℕ → Pc → ℕ → Pc
update f i a j = ite (ℕ_discrete j i) a (f j)

-- `RateLimiter(tps)`, made in the second `now`
unfoldable pub init : ℕ → ℕ → Limiter
unfolding epoch_state
init tps now = record {
  token = tps;
  epoch = epoch_state now;
  bucket = tps;
  clock = now;
  pc = λ i. idle;
  granted = 0;
  resets = 0;
  published = true;
  made = now;
}

-- One atomic step of the thread `i` in `allow`, or a step of the environment.
pub data Step (s : Limiter) : Limiter → Type 0 where
  tick : (now : ℕ) → s.clock ≤ now → now < 2 ^ 63 → Step s (record s { clock = now })
  call_disabled :
      (i : ℕ) → s.pc i ≡ idle → s.token ≡ 0 → Step s (record s { pc = update s.pc i (done false) })
  call :
      (i : ℕ)
      → s.pc i ≡ idle
      → s.token ≢ 0
      → Step s (record s { pc = update s.pc i (timed s.clock) })
  load :
      (i now : ℕ)
      → s.pc i ≡ timed now
      → Step s (record s { pc = update s.pc i (loaded now s.epoch) })
  reload :
      (i now epoch : ℕ)
      → s.pc i ≡ loaded now epoch
      → is_resetting epoch ≡ true
      → Step s (record s { pc = update s.pc i (loaded now s.epoch) })
  current :
      (i now epoch : ℕ)
      → s.pc i ≡ loaded now epoch
      → is_resetting epoch ≡ false
      → leb now (epoch_second epoch) ≡ true
      → Step s (record s { pc = update s.pc i ready })
  claim :
      (i now epoch : ℕ)
      → s.pc i ≡ loaded now epoch
      → is_resetting epoch ≡ false
      → leb now (epoch_second epoch) ≡ false
      → s.epoch ≡ epoch
      → Step s (record s { epoch = set_resetting epoch; pc = update s.pc i (owner now) })
  claim_fails :
      (i now epoch : ℕ)
      → s.pc i ≡ loaded now epoch
      → is_resetting epoch ≡ false
      → leb now (epoch_second epoch) ≡ false
      → Step s (record s { pc = update s.pc i (loaded now s.epoch) })
  reset :
      (i now : ℕ)
      → s.pc i ≡ owner now
      → Step s (record s {
        bucket = s.token;
        pc = update s.pc i (stored now);
        resets = s.resets + 1;
        published = false;
      })
  publish :
      (i now : ℕ)
      → s.pc i ≡ stored now
      → Step s (record s { epoch = epoch_state now; pc = update s.pc i ready; published = true })
  load_bucket :
      (i : ℕ) → s.pc i ≡ ready → Step s (record s { pc = update s.pc i (taking s.bucket) })
  take :
      (i bucket : ℕ)
      → s.pc i ≡ taking bucket
      → 0 < bucket
      → s.bucket ≡ bucket
      → Step s (record s {
        bucket = bucket - 1;
        pc = update s.pc i (done true);
        granted = s.granted + 1;
      })
  take_fails :
      (i bucket : ℕ)
      → s.pc i ≡ taking bucket
      → 0 < bucket
      → Step s (record s { pc = update s.pc i (taking s.bucket) })
  refuse : (i : ℕ) → s.pc i ≡ taking 0 → Step s (record s { pc = update s.pc i (done false) })
  give_back :
      (i : ℕ) (answer : Bool) → s.pc i ≡ done answer → Step s (record s { pc = update s.pc i idle })

pub data Reach (s : Limiter) : Limiter → Type 0 where
  here : Reach s s
  next : {t u : Limiter} → Reach s t → Step t u → Reach s u
