-- ===== src/Limiter/Tests.antt =====
-- The limiter on concrete inputs.
use pinpoint_cpp_agent.Common.{◌+◌, ◌-◌, ◌*◌, ◌≤◌, ◌≡◌, refl, Bool, arith, min}
use pinpoint_cpp_agent.Limiter.{Limiter, Reach, init, epoch_state, is_resetting, done, idle}
use pinpoint_cpp_agent.Limiter
use pinpoint_cpp_agent.Limiter.Bound.{granted-le}
use pinpoint_cpp_agent.Limiter.Alone.{Window, allow, calls, window, calls_new_second, allow_runs}
use pinpoint_cpp_agent.Limiter.Alone.Answers.{allow_alone}
use pinpoint_cpp_agent.Limiter.Solo.{Solo, Solo-Reach}

abbrev fresh : Limiter
fresh = init 2 5

abbrev used : Window
used = record { token = 2; epoch = 10; bucket = 0 }

three_calls : (calls 3 6 used).1 ≡ 2
unfolding calls
three_calls = refl

calls_new_second_example : (calls 3 6 used).1 ≡ min 3 2
unfolding Limiter.epoch_second
calls_new_second_example = calls_new_second 3 6 used (omega arith) (omega arith)

allow_alone_example :
    ((t : Limiter) × Solo 0 fresh t × (t.pc 0 ≡ done (allow 5 (window fresh)).1))
    × ((t : Limiter) (answer : Bool)
        → Solo 0 fresh t
        → t.pc 0 ≡ done answer
        → (window t ≡ (allow 5 (window fresh)).0) × (answer ≡ (allow 5 (window fresh)).1))
unfolding init is_resetting
allow_alone_example = allow_alone 0 fresh refl refl

-- a call of one thread that is granted
one_call :
    (t : Limiter) × Solo 0 fresh t
    × (window t ≡ (allow 5 (window fresh)).0)
    × (t.pc 0 ≡ done (allow 5 (window fresh)).1)
unfolding init is_resetting
one_call = allow_runs 0 fresh refl refl

granted-le_example : (one_call.0).granted ≤ 2 * (1 + ((one_call.0).clock - 5))
granted-le_example = granted-le 2 5 (omega arith) (Solo-Reach 0 one_call.1)
