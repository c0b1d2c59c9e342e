-- ===== src/Reconciler/Schedule.antt =====
-- The pending set: deferral windows, back-off, and touches that arrive during a pass.
use native.Mathlib.Nat.{mul-pos}
use osdns.Prelude.{
  ℕ, zero, suc, ◌+◌, ◌-◌, ◌^◌, ◌≤◌, ◌<◌, min, max, ◌≡◌, refl, true, false, Option, none, some, List,
  [], ◌∷◌, ◌==◌, ==_refl, arith, Option-cases, inl, inr,
}
use osdns.Text.{text_eq_refl}
use osdns.Error.{ResourceId}
use osdns.Reconciler.{
  lookup, remove_key, set_key, Pending, PendingMap, touch, defer_at, generation_of,
  complete_unless_touched, back_off, max_error_retry, max_u32, max_u64, saturating_suc,
}

-- When the pass is due, 0 if none is pending.
abbrev pub ready_of : Option Pending → ℕ
ready_of none = 0
ready_of (some p) = p.ready_at

module _ {ℓ} {A : Type ℓ} where
  lookup-remove : (r : ResourceId) (m : List (ResourceId × A)) → lookup r (remove_key r m) ≡ none
  lookup-remove r [] = refl
  lookup-remove r ((s, a) ∷ m) = ground (arith, lookup-remove r m)

  lookup-set :
      (r : ResourceId) (a : A) (m : List (ResourceId × A)) → lookup r (set_key r a m) ≡ some a
  lookup-set r a m = rw (text_eq_refl r.text) refl

power-positive : (n : ℕ) → 0 < 2 ^ n
power-positive zero = omega arith
power-positive (suc n) = omega (arith, power-positive n)

back_off-bounds :
    (delay errors : ℕ)
    → 0 < delay
    → (0 < back_off delay errors) × (back_off delay errors ≤ max_error_retry)
back_off-bounds delay errors h = ground (arith, mul-pos h (power-positive (min (errors - 1) 7)))

-- After `defer_at` for an error, with a delay that is positive and at most `MAX_ERROR_RETRY`, the
-- pass of the resource is due after now, not before it was due already, and at the latest when it
-- was due already or `MAX_ERROR_RETRY` from now, however many errors came before.
pub defer_at-bounds :
    (r : ResourceId) (delay now : ℕ) (m : PendingMap)
    → 0 < delay
    → delay ≤ max_error_retry
    → (now < ready_of (lookup r (defer_at r delay true now m)))
      × (ready_of (lookup r m) ≤ ready_of (lookup r (defer_at r delay true now m)))
      × (ready_of (lookup r (defer_at r delay true now m))
          ≤ max (ready_of (lookup r m)) (now + max_error_retry))
unfolding defer_at
defer_at-bounds r delay now m h w = rw (text_eq_refl r.text) (elim (Option-cases (lookup r m)) [
  | inl e ↦ rw e (ground (arith, back_off-bounds delay (saturating_suc max_u32 0) h))
  | inr (p, e) ↦
      rw e (ground (arith, back_off-bounds delay (saturating_suc max_u32 p.consecutive_errors) h))
])

saturating-below : (n : ℕ) → n < max_u64 → saturating_suc max_u64 n ≡ suc n
saturating-below n h = omega (arith, h)

grows : (n : ℕ) → (suc n == n) ≡ false
grows n = ground arith

-- For a pending resource whose generation has not reached `u64::MAX`: a pass that ends with no
-- touch since its generation was read removes the resource from the pending set, and a touch that
-- arrived meanwhile is not lost: the resource stays pending, due at once, with a new generation
-- and no errors counted.
pub complete_unless_touched-touch :
    (now later : ℕ) (r : ResourceId) (p : Pending) (m : PendingMap)
    → lookup r m ≡ some p
    → p.generation < max_u64
    → (lookup r (complete_unless_touched later r (generation_of r m) m) ≡ none)
      × (lookup r (complete_unless_touched later r (generation_of r m) (touch now r m))
          ≡ some
              (record { ready_at = later; generation = suc p.generation; consecutive_errors = 0 }))
unfolding complete_unless_touched generation_of touch
complete_unless_touched-touch now later r p m h w = rw (text_eq_refl r.text) (
    rw h (
      rw (==_refl p.generation) (lookup-remove r m),
      rw (saturating-below p.generation w) (
          rw (grows p.generation)
            (lookup-set r _ (set_key r (record p { generation = suc p.generation }) m))),
    ))
