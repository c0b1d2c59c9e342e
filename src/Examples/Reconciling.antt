-- ===== src/Examples/Reconciling.antt =====
-- The theorems on the reconciler's state, applied to concrete states.
use osdns.Prelude.{
  ℕ, List, ◌+◌, ◌≤◌, ◌<◌, max, ◌≡◌, refl, true, false, none, some, [], ◌∷◌, length, arith,
}
use osdns.Text.{text_eq}
use osdns.Reconciler.{
  lookup, PendingMap, touch, defer_at, generation_of, complete_unless_touched, max_error_retry,
  BreakerState, breaker_threshold, drop_old, breaker_gate,
}
use osdns.Reconciler.Schedule.{ready_of, defer_at-bounds, complete_unless_touched-touch}
use osdns.Reconciler.Breaker.{attempts_from, is_admitted, all_admitted-bound, breaker_gate-delay}
use osdns.Examples.{eth0}

abbrev one_pending : PendingMap
one_pending = (eth0, record { ready_at = 1000; generation = 3; consecutive_errors = 2 }) ∷ []

defer_at-bounds_example :
    (900 < ready_of (lookup eth0 (defer_at eth0 250 true 900 one_pending)))
    × (ready_of (lookup eth0 one_pending)
        ≤ ready_of (lookup eth0 (defer_at eth0 250 true 900 one_pending)))
    × (ready_of (lookup eth0 (defer_at eth0 250 true 900 one_pending))
        ≤ max (ready_of (lookup eth0 one_pending)) (900 + max_error_retry))
defer_at-bounds_example = defer_at-bounds eth0 250 900 one_pending (omega arith) (omega arith)

complete_unless_touched-touch_example :
    (lookup eth0 (complete_unless_touched 1200 eth0 (generation_of eth0 one_pending) one_pending)
      ≡ none)
    × (lookup eth0 (
          complete_unless_touched 1200 eth0
            (generation_of eth0 one_pending)
            (touch 1100 eth0 one_pending))
        ≡ some (record { ready_at = 1200; generation = 4; consecutive_errors = 0 }))
unfolding text_eq
complete_unless_touched-touch_example =
    complete_unless_touched-touch 1100 1200 eth0
      (record { ready_at = 1000; generation = 3; consecutive_errors = 2 }) one_pending refl
      (omega arith)

-- Five attempts within the window, and then one more.
abbrev busy_breaker : BreakerState
busy_breaker = record { attempts = 100 ∷ 200 ∷ 300 ∷ 400 ∷ 500 ∷ []; open_until = none }

abbrev next_pass : List ℕ
next_pass = 600 ∷ []

all_admitted-bound_example :
    attempts_from 100 busy_breaker.attempts + length next_pass ≤ breaker_threshold
unfolding drop_old breaker_gate
all_admitted-bound_example =
    all_admitted-bound 100 next_pass busy_breaker refl ((omega arith, omega arith), tt) refl

abbrev open_breaker : BreakerState
open_breaker = record { attempts = []; open_until = some 3000 }

breaker_gate-delay_example :
    ((later : ℕ)
      → later < 1000 + 2000
      → is_admitted (breaker_gate later (breaker_gate 1000 open_breaker).1) ≡ false)
    × (is_admitted (breaker_gate (1000 + 2000) (breaker_gate 1000 open_breaker).1) ≡ true)
unfolding breaker_gate
breaker_gate-delay_example = breaker_gate-delay 1000 2000 open_breaker refl
