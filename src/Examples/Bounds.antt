-- ===== src/Examples/Bounds.antt =====
-- The theorems on the default mutations, applied to a native state that is a number.
use osdns.Prelude.{ℕ, refl}
use osdns.Error.{ok}
use osdns.Platform.{same, owns_current}
use osdns.Platform.Bound.{Native, unconditional, apply_bound, restore_bound}
use osdns.Platform.Bound.Refined.{
  AppliedPost, RestoredPost, apply_bound-Applied, restore_bound-Restored,
}
use osdns.Platform.{performed}
use osdns.Prelude.{none}
use osdns.Examples.{backend, snapshot, identity, plan, eth0}

-- The interface holds a number, and the plan is 1.
abbrev native : Native ℕ ℕ ℕ
native = record {
  mutation_guard = unconditional;
  resource_status = λ i s. (ok same, s);
  readback = λ r s. (ok (snapshot s), s);
  apply = λ r p s. (ok tt, 1);
  restore = λ r t s. (ok tt, t.payload);
  apply_guarded = λ r e p s. (performed none, 1);
  restore_guarded = λ r e t s. (performed none, t.payload);
}

abbrev looks : ℕ → ℕ
looks s = s

apply_bound-Applied_example :
    AppliedPost native identity looks
      (backend.equivalent (snapshot 0))
      (native.apply eth0 plan)
      0
      (apply_bound backend native identity (snapshot 0) plan 0)
apply_bound-Applied_example =
    apply_bound-Applied backend native identity looks (λ s. refl) (λ s. refl) (snapshot 0) plan 0
      refl

restore_bound-Restored_example :
    RestoredPost native identity looks
      (owns_current backend (snapshot 1))
      (native.restore eth0 (snapshot 0))
      1
      (restore_bound backend native identity (snapshot 1) (snapshot 0) 1)
restore_bound-Restored_example =
    restore_bound-Restored backend native identity looks (λ s. refl) (λ s. refl) (snapshot 1)
      (snapshot 0) 1 refl
