-- ===== src/Limiter/Bound.antt =====
-- How many calls a limiter grants, whatever its threads do.
use pinpoint_cpp_agent.Common.{ℕ, ◌+◌, ◌-◌, ◌*◌, ◌^◌, ◌≤◌, ◌<◌, ◌≡◌, refl, ◌∙◌, arith}
use pinpoint_cpp_agent.Limiter.{Limiter, init, Step, Reach}
use pinpoint_cpp_agent.Limiter
use pinpoint_cpp_agent.Limiter.Invariant.{IsSound}
use pinpoint_cpp_agent.Limiter.Steps.{init-IsSound, Step-IsSound}

-- The rate and the second in which the limiter was made never change.
abbrev Fixed : Limiter → Limiter → Type 0
Fixed s t = (t.token ≡ s.token) × (t.made ≡ s.made)

Step-Fixed : {s t : Limiter} → Step s t → Fixed s t
Step-Fixed (Limiter.tick _ _ _) = (refl, refl)
Step-Fixed (Limiter.call_disabled _ _ _) = (refl, refl)
Step-Fixed (Limiter.call _ _ _) = (refl, refl)
Step-Fixed (Limiter.load _ _ _) = (refl, refl)
Step-Fixed (Limiter.reload _ _ _ _ _) = (refl, refl)
Step-Fixed (Limiter.current _ _ _ _ _ _) = (refl, refl)
Step-Fixed (Limiter.claim _ _ _ _ _ _ _) = (refl, refl)
Step-Fixed (Limiter.claim_fails _ _ _ _ _ _) = (refl, refl)
Step-Fixed (Limiter.reset _ _ _) = (refl, refl)
Step-Fixed (Limiter.publish _ _ _) = (refl, refl)
Step-Fixed (Limiter.load_bucket _ _) = (refl, refl)
Step-Fixed (Limiter.take _ _ _ _ _) = (refl, refl)
Step-Fixed (Limiter.take_fails _ _ _ _) = (refl, refl)
Step-Fixed (Limiter.refuse _ _) = (refl, refl)
Step-Fixed (Limiter.give_back _ _ _) = (refl, refl)

Reach-Fixed : {s t : Limiter} → Reach s t → Fixed s t
Reach-Fixed Limiter.here = (refl, refl)
Reach-Fixed (Limiter.next r st) =
    ((Step-Fixed st).0 ∙ (Reach-Fixed r).0, (Step-Fixed st).1 ∙ (Reach-Fixed r).1)

pub Reach-IsSound : {s t : Limiter} → Reach s t → IsSound s → IsSound t
Reach-IsSound Limiter.here h = h
Reach-IsSound (Limiter.next r st) h = Step-IsSound st (Reach-IsSound r h)

times_mono : (n a b : ℕ) → a ≤ b → n * a ≤ n * b
times_mono n a b h = grind arith

-- On every interleaving of any number of threads, a limiter that was made in the second `now` has
-- granted at most `tps` calls for each second that has begun since, that one included.
pub granted-le :
    (tps now : ℕ) {s : Limiter}
    → now < 2 ^ 63
    → Reach (init tps now) s
    → s.granted ≤ tps * (1 + (s.clock - now))
unfolding init
granted-le tps now {s} small r =
    let h = Reach-IsSound r (init-IsSound tps now small) in
    let fixed = Reach-Fixed r in
    let more =
      times_mono tps (1 + s.resets) (1 + (s.clock - now)) (omega (arith, h.past, fixed.1)) in
    let count : s.granted + s.bucket ≤ tps * (1 + s.resets) = rw fixed.0 at h.counted in
    omega (arith, count, more)
