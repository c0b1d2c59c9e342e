-- ===== src/Reconciler/Breaker.antt =====
-- The circuit breaker: how many passes it admits.
use osdns.Prelude.{
  ℕ, suc, ◌+◌, ◌≤◌, ◌<◌, ◌≡◌, refl, Bool, true, false, Option, none, some, List, [], ◌∷◌, ◌++◌,
  if◌then◌else◌, ◌&&◌, ◌||◌, leb, length, length-append, All, arith,
}
use osdns.Reconciler.{breaker_window, breaker_threshold, BreakerState, drop_old, breaker_gate}

-- The attempts from `start` on.
abbrev pub attempts_from : ℕ → List ℕ → ℕ
attempts_from start [] = 0
attempts_from start (x ∷ xs) =
    let rest = attempts_from start xs in if leb start x then suc rest else rest

abbrev is_closed : Option ℕ → Bool
is_closed none = true
is_closed (some t) = false

-- At most the threshold of attempts is kept, and none while the breaker is open.
abbrev pub is_sound : BreakerState → Bool
is_sound state =
    leb (length state.attempts) breaker_threshold
    && (is_closed state.open_until || leb (length state.attempts) 0)

attempts_from-length : (start : ℕ) (xs : List ℕ) → attempts_from start xs ≤ length xs
attempts_from-length start [] = omega arith
attempts_from-length start (x ∷ xs) = ground (arith, attempts_from-length start xs)

attempts_from-append :
    (start now : ℕ) (xs : List ℕ)
    → start ≤ now
    → attempts_from start (xs ++ now ∷ []) ≡ suc (attempts_from start xs)
attempts_from-append start now [] h = ground arith
attempts_from-append start now (x ∷ xs) h = ground (arith, attempts_from-append start now xs h)

drop_old-attempts_from :
    (start now : ℕ) (xs : List ℕ)
    → now ≤ start + breaker_window
    → attempts_from start (drop_old now xs) ≡ attempts_from start xs
unfolding drop_old
drop_old-attempts_from start now [] h = refl
drop_old-attempts_from start now (x ∷ xs) h = ground (arith, drop_old-attempts_from start now xs h)

-- Whether a pass was admitted.
abbrev pub is_admitted : Option ℕ × BreakerState → Bool
is_admitted (none, state) = true
is_admitted (some delay, state) = false

-- The invariant of the breaker.
breaker_gate-is_sound :
    (now : ℕ) (state : BreakerState)
    → is_sound state ≡ true
    → is_sound (breaker_gate now state).1 ≡ true
unfolding breaker_gate
breaker_gate-is_sound now state h =
    ground (arith, length-append (drop_old now state.attempts) (now ∷ []))

-- Admitting a pass counts it.
breaker_gate-counts :
    (start now : ℕ) (state : BreakerState)
    → is_sound state ≡ true
    → start ≤ now
    → now ≤ start + breaker_window
    → is_admitted (breaker_gate now state) ≡ true
    → attempts_from start (breaker_gate now state).1.attempts
      ≡ suc (attempts_from start state.attempts)
unfolding breaker_gate
breaker_gate-counts start now state h s w a = ground (
  arith,
  attempts_from-append start now (drop_old now state.attempts) s,
  drop_old-attempts_from start now state.attempts w,
  attempts_from-append start now [] s,
  attempts_from-length start state.attempts,
)

-- Every pass of a series is admitted.
abbrev pub all_admitted : BreakerState → List ℕ → Bool
all_admitted state [] = true
all_admitted state (now ∷ rest) =
    is_admitted (breaker_gate now state) && all_admitted (breaker_gate now state).1 rest

abbrev pub Within : ℕ → List ℕ → Type 0
Within start times = All (λ t. (start ≤ t) × (t ≤ start + breaker_window)) times

-- From a sound breaker state, if every call of `breaker_gate` in a series at times within one
-- breaker window is admitted, then the calls and the attempts kept from the start of that window
-- on are together at most the threshold: no more than six passes are admitted in a row within five
-- seconds.
pub all_admitted-bound :
    (start : ℕ) (times : List ℕ) (state : BreakerState)
    → is_sound state ≡ true
    → Within start times
    → all_admitted state times ≡ true
    → attempts_from start state.attempts + length times ≤ breaker_threshold
all_admitted-bound start [] state h w a = ground (arith, attempts_from-length start state.attempts)
all_admitted-bound start (t ∷ ts) state h w a = ground (
  arith,
  breaker_gate-counts start t state h w.0.0 w.0.1 (ground arith),
  all_admitted-bound start ts (breaker_gate t state).1 (breaker_gate-is_sound t state h) w.1
      (ground arith),
)

-- When `breaker_gate` refuses a pass with a delay, it refuses every pass before that delay is over
-- and admits the next one at its end.
pub breaker_gate-delay :
    (now delay : ℕ) (state : BreakerState)
    → (breaker_gate now state).0 ≡ some delay
    → ((later : ℕ)
        → later < now + delay
        → is_admitted (breaker_gate later (breaker_gate now state).1) ≡ false)
      × (is_admitted (breaker_gate (now + delay) (breaker_gate now state).1) ≡ true)
unfolding breaker_gate
breaker_gate-delay now delay state h = ((λ later l. ground arith), ground arith)
