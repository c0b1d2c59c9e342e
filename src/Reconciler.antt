-- ===== src/Reconciler.antt =====
-- reconciliation.rs: the state of the reconciler. Instants and durations are counted in
-- milliseconds; the clock's reading `now` is an argument.
pub mod Schedule
pub mod Breaker
use osdns.Prelude.{
  ℕ, suc, ◌+◌, ◌-◌, ◌*◌, ◌^◌, min, max, Bool, true, false, Option, none, some, List, [], ◌∷◌, ◌++◌,
  if◌then◌else◌, ltb, leb, ◌==◌, length,
}
use osdns.Error.{ResourceId}
use osdns.Tx.History.{same_resource}

-- The constants of the module.
abbrev pub breaker_window : ℕ
breaker_window = 5000

abbrev pub breaker_threshold : ℕ
breaker_threshold = 6

abbrev pub breaker_cooldown : ℕ
breaker_cooldown = 2000

abbrev pub max_error_retry : ℕ
max_error_retry = 30000

abbrev pub max_u32 : ℕ
max_u32 = 4294967295

abbrev pub max_u64 : ℕ
max_u64 = 18446744073709551615

-- `Duration::MAX`, in whole milliseconds.
abbrev pub max_duration : ℕ
max_duration = 18446744073709551615999

-- A map keyed by resource.
module _ {ℓ} {A : Type ℓ} where
  abbrev pub lookup : ResourceId → List (ResourceId × A) → Option A
  lookup r [] = none
  lookup r ((s, a) ∷ xs) = if same_resource s r then some a else lookup r xs

  abbrev pub remove_key : ResourceId → List (ResourceId × A) → List (ResourceId × A)
  remove_key r [] = []
  remove_key r ((s, a) ∷ xs) =
      if same_resource s r then remove_key r xs else (s, a) ∷ remove_key r xs

  abbrev pub set_key : ResourceId → A → List (ResourceId × A) → List (ResourceId × A)
  set_key r a xs = (r, a) ∷ remove_key r xs

pub record Pending : Type 0 where
  pub ready_at : ℕ
  pub generation : ℕ
  pub consecutive_errors : ℕ

abbrev pub PendingMap : Type 0
PendingMap = List (ResourceId × Pending)

abbrev pub saturating_suc : ℕ → ℕ → ℕ
saturating_suc bound n = min (suc n) bound

abbrev pub touched : ℕ → Option Pending → Pending
touched now none = record { ready_at = now; generation = 0; consecutive_errors = 0 }
touched now (some p) = record p { generation = saturating_suc max_u64 p.generation }

pub touch : ℕ → ResourceId → PendingMap → PendingMap
touch now r m = set_key r (touched now (lookup r m)) m

-- `entry(..).or_insert(..)` of `defer_at`.
abbrev entry_of : ℕ → ℕ → Option Pending → Pending
entry_of now delay none = record { ready_at = now + delay; generation = 0; consecutive_errors = 0 }
entry_of now delay (some p) = p

-- `delay.saturating_mul(1 << errors.saturating_sub(1).min(7)).min(MAX_ERROR_RETRY)`
abbrev pub back_off : ℕ → ℕ → ℕ
back_off delay errors = min (min (delay * 2 ^ min (errors - 1) 7) max_duration) max_error_retry

abbrev failed_pass : ℕ → ℕ → Pending → Pending
failed_pass now delay p =
    let errors = saturating_suc max_u32 p.consecutive_errors in
    record p {
      consecutive_errors = errors;
      ready_at = max p.ready_at (now + back_off delay errors);
    }

abbrev deferred_pass : ℕ → ℕ → Pending → Pending
deferred_pass now delay p = record p {
  consecutive_errors = 0;
  ready_at = max p.ready_at (now + delay);
}

pub defer_at : ResourceId → ℕ → Bool → ℕ → PendingMap → PendingMap
defer_at r delay failed now m =
    let entry = entry_of now delay (lookup r m) in
    set_key r (if failed then failed_pass now delay entry else deferred_pass now delay entry) m

abbrev generation_in : Option Pending → ℕ
generation_in none = 0
generation_in (some p) = p.generation

pub generation_of : ResourceId → PendingMap → ℕ
generation_of r m = generation_in (lookup r m)

abbrev completed : ℕ → ResourceId → ℕ → PendingMap → Option Pending → PendingMap
completed now r generation m none = remove_key r m
completed now r generation m (some p) =
    if p.generation == generation
    then remove_key r m
    else set_key r (record p { ready_at = now; consecutive_errors = 0 }) m

pub complete_unless_touched : ℕ → ResourceId → ℕ → PendingMap → PendingMap
complete_unless_touched now r generation m = completed now r generation m (lookup r m)

pub record BreakerState : Type 0 where
  pub attempts : List ℕ
  pub open_until : Option ℕ

-- Attempts older than the window are dropped from the front.
unfoldable pub drop_old : ℕ → List ℕ → List ℕ
drop_old now [] = []
drop_old now (oldest ∷ xs) =
    let rest = drop_old now xs in if ltb breaker_window (now - oldest) then rest else oldest ∷ xs

abbrev count_attempt : ℕ → List ℕ → Option ℕ × BreakerState
count_attempt now attempts =
    if leb breaker_threshold (length attempts)
    then (
      some breaker_cooldown,
      record { attempts = []; open_until = some (now + breaker_cooldown) },
    )
    else (none, record { attempts = attempts ++ now ∷ []; open_until = none })

-- The delay by which the pass is put off, if any, and the state of the resource's breaker.
unfoldable pub breaker_gate : ℕ → BreakerState → Option ℕ × BreakerState
breaker_gate now state = elim state.open_until [
  | none ↦ count_attempt now (drop_old now state.attempts)
  | some open_until ↦
      if ltb now open_until then (some (open_until - now), state) else count_attempt now []
]
