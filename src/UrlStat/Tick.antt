-- ===== src/UrlStat/Tick.antt =====
-- Which entries share a tick.
use pinpoint_cpp_agent.Common.{ℕ, ◌+◌, ◌/◌, ◌≤◌, ◌<◌, ◌≡◌, ◌↔◌, arith}
use pinpoint_cpp_agent.UrlStat.{tick, tick_interval_seconds}

-- A tick begins the half minute that the end time lies in, and two end times have the same tick
-- exactly if they lie in the same half minute since 1970.
pub tick_lem :
    (end_time other : ℕ)
    → (tick tick_interval_seconds end_time ≤ end_time)
      × (end_time < tick tick_interval_seconds end_time + 30000)
      × ((tick tick_interval_seconds end_time ≡ tick tick_interval_seconds other)
          ↔ (end_time / 30000 ≡ other / 30000))
unfolding tick
tick_lem end_time other = (omega arith, omega arith, (λ h. omega arith, λ h. omega arith))
