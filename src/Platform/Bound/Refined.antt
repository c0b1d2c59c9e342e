-- ===== src/Platform/Bound/Refined.antt =====
-- The default `apply_bound` and `restore_bound` mutate at most once, and only after a read that
-- passes the comparison. `view` is what of the native state matters: reading does not change it.
use osdns.Prelude.{◌≡◌, refl, sym, subst, ◌∙◌, ◌⊎◌, inl, inr, Bool, true, Bool-cases}
use osdns.Error.{Error, Fallible, ok, err, is_external_modification}
use osdns.Platform.{
  PlatformSnapshot, ResourceIdentity, ResourceStatus, same, gone, replaced, ambiguous,
  MutationAttempt, performed, rejected, indeterminate, Backend, owns_current, NormalizedConfig,
}
use osdns.Platform.Bound.{
  Native, unconditional, from_apply_result, from_restore_result, when_same, when_current, by_guard,
  apply_unguarded, restore_unguarded, apply_bound, restore_bound,
}

-- `op` ran once and gave this reply. Before it, in this order and with nothing else between: a check
-- of the incarnation that found it unchanged, the read of `seen`, and a second such check. `seen`
-- passes `test`, and what matters of the native state was as in `s` all along.
pub record IsMutated {S V D I : Type 0} (n : Native S D I) (i : ResourceIdentity I) (view : S → V)
    (test : PlatformSnapshot D → Bool) (op : S → Fallible (Unit {0}) × S) (s : S)
    (reply : Fallible (Unit {0})) (after : S) : Type 0 where
  pub checked : S
  pub looked : S
  pub onto : S
  pub seen : PlatformSnapshot D
  pub first_check : n.resource_status i s ≡ (ok same, checked)
  pub was_read : n.readback i.resource checked ≡ (ok seen, looked)
  pub tested : test seen ≡ true
  pub second_check : n.resource_status i looked ≡ (ok same, onto)
  pub ran : op onto ≡ (reply, after)
  pub read_unchanged : view checked ≡ view s
  pub unchanged : view onto ≡ view s

module _ {S V D I : Type 0} (n : Native S D I) (i : ResourceIdentity I) (view : S → V)
    (test : PlatformSnapshot D → Bool) (op : S → Fallible (Unit {0}) × S) where
  -- A refusal leaves the state as it looked, or is the reply of the operation itself.
  abbrev pub AppliedPost : S → MutationAttempt D × S → Type 0
  AppliedPost s (performed p, t) = IsMutated n i view test op s (ok tt) t
  AppliedPost s (rejected e, t) = (view t ≡ view s) ⊎ IsMutated n i view test op s (err e) t
  AppliedPost s (indeterminate e p, t) = IsMutated n i view test op s (err e) t

  abbrev pub RestoredPost : S → MutationAttempt D × S → Type 0
  RestoredPost s (performed p, t) = IsMutated n i view test op s (ok tt) t
  RestoredPost s (rejected e, t) = view t ≡ view s
  RestoredPost s (indeterminate e p, t) = IsMutated n i view test op s (err e) t

  from_apply-Applied :
      (s : S) (r : Fallible (Unit {0})) (t : S)
      → IsMutated n i view test op s r t
      → AppliedPost s (from_apply_result r, t)
  from_apply-Applied s (ok u) t m = m
  from_apply-Applied s (err e) t m = elim (Bool-cases (is_external_modification e)) [
    | inl x ↦ rw x (inr m)
    | inr x ↦ rw x m
  ]

  from_restore-Restored :
      (s : S) (r : Fallible (Unit {0})) (t : S)
      → IsMutated n i view test op s r t
      → RestoredPost s (from_restore_result r, t)
  from_restore-Restored s (ok u) t m = m
  from_restore-Restored s (err e) t m = m

module _ {S V D I : Type 0} (b : Backend D) (n : Native S D I) (i : ResourceIdentity I)
    (view : S → V) (checks : (s : S) → view (n.resource_status i s).1 ≡ view s)
    (reads : (s : S) → view (n.readback i.resource s).1 ≡ view s) where
  -- What holds of a refusal that looks like `s`, and of the next step from such a state, holds.
  same_or_refused :
      (post : MutationAttempt D × S → Type 0) (go : S → MutationAttempt D × S) (s from : S)
      (r : Fallible ResourceStatus × S)
      → n.resource_status i from ≡ r
      → view r.1 ≡ view s
      → ((e : Error) (t : S) → view t ≡ view s → post (rejected e, t))
      → ((t : S) → n.resource_status i from ≡ (ok same, t) → view t ≡ view s → post (go t))
      → post (when_same b n i go r)
  unfolding when_same
  same_or_refused post go s from (ok same, t) q v refuse next = next t q v
  same_or_refused post go s from (ok gone, t) q v refuse next = refuse _ t v
  same_or_refused post go s from (ok replaced, t) q v refuse next = refuse _ t v
  same_or_refused post go s from (ok ambiguous, t) q v refuse next = refuse _ t v
  same_or_refused post go s from (err e, t) q v refuse next = refuse e t v

  tested_or_refused :
      (post : MutationAttempt D × S → Type 0) (test : PlatformSnapshot D → Bool)
      (mutate : S → MutationAttempt D × S) (s from : S) (r : Fallible (PlatformSnapshot D) × S)
      → n.readback i.resource from ≡ r
      → view r.1 ≡ view s
      → ((e : Error) (t : S) → view t ≡ view s → post (rejected e, t))
      → ((seen : PlatformSnapshot D) (looked onto : S)
          → n.readback i.resource from ≡ (ok seen, looked)
          → test seen ≡ true
          → n.resource_status i looked ≡ (ok same, onto)
          → view onto ≡ view s
          → post (mutate onto))
      → post (when_current b n i test mutate r)
  unfolding when_current
  tested_or_refused post test mutate s from (err e, t) q v refuse next = refuse e t v
  tested_or_refused post test mutate s from (ok current, t) q v refuse next =
      elim (Bool-cases (test current)) [
        | inl e ↦ rw e (
            same_or_refused post mutate s t (n.resource_status i t) refl (checks t ∙ v) refuse
              (λ u k w. next current t u q e k w))
        | inr e ↦ rw e (refuse _ t v)
      ]

  -- A mutation that is bound runs `op` as `IsMutated` says, or is refused.
  bound_or_refused :
      (post : MutationAttempt D × S → Type 0) (test : PlatformSnapshot D → Bool)
      (op : S → Fallible (Unit {0}) × S) (mutate guarded : S → MutationAttempt D × S) (s : S)
      → ((e : Error) (t : S) → view t ≡ view s → post (rejected e, t))
      → ((onto : S) → IsMutated n i view test op s (op onto).0 (op onto).1 → post (mutate onto))
      → n.mutation_guard ≡ unconditional
      → post (
          when_same b n i
            (by_guard b n i test mutate guarded n.mutation_guard)
            (n.resource_status i s))
  unfolding by_guard
  bound_or_refused post test op mutate guarded s refuse next g =
      subst
        (λ u. post (when_same b n i (by_guard b n i test mutate guarded u) (n.resource_status i s)))
        (sym g)
        (same_or_refused post (by_guard b n i test mutate guarded unconditional) s s
          (n.resource_status i s) refl (checks s) refuse
          (λ t k v.
            tested_or_refused post test mutate s t (n.readback i.resource t) refl (reads t ∙ v)
              refuse
              (λ seen looked onto q e k' w. next onto (record {
                checked = t;
                looked = looked;
                onto = onto;
                seen = seen;
                first_check = k;
                was_read = q;
                tested = e;
                second_check = k';
                ran = refl;
                read_unchanged = v;
                unchanged = w;
              }))))

  -- For a backend without a native compare-and-mutate, whose checks and reads leave what matters of
  -- the native state as it was, `apply_bound` refines an atomic compare-and-apply: `Performed` and
  -- `Indeterminate` mean that `apply` ran exactly once, with the reply that is handed on, after a
  -- check of the incarnation, a `readback` whose reply is equivalent to the expected snapshot, and a
  -- second check, each of which found the incarnation unchanged, and on a state that looks as the
  -- first did. `Rejected` means that nothing changed, or that this one `apply` itself replied with
  -- the error.
  pub apply_bound-Applied :
      (expected : PlatformSnapshot D) (plan : NormalizedConfig) (s : S)
      → n.mutation_guard ≡ unconditional
      → AppliedPost n i view
          (b.equivalent expected)
          (n.apply i.resource plan)
          s
          (apply_bound b n i expected plan s)
  unfolding apply_bound apply_unguarded by_guard when_current when_same
  apply_bound-Applied expected plan s g =
      bound_or_refused (AppliedPost n i view (b.equivalent expected) (n.apply i.resource plan) s)
        (b.equivalent expected) (n.apply i.resource plan) (apply_unguarded b n i plan)
        (n.apply_guarded i.resource expected plan) s (λ e t v. inl v)
        (λ onto m.
          from_apply-Applied n i view (b.equivalent expected) (n.apply i.resource plan) s
            (n.apply i.resource plan onto).0 (n.apply i.resource plan onto).1 m)
        g

  -- For a backend without a native compare-and-mutate, whose checks and reads leave what matters of
  -- the native state as it was, `restore_bound` refines an atomic compare-and-restore: `Performed`
  -- and `Indeterminate` mean that `restore` ran exactly once, with the reply that is handed on,
  -- after a check of the incarnation, a `readback` whose reply the expected snapshot owns, and a
  -- second check, each of which found the incarnation unchanged, and on a state that looks as the
  -- first did. `Rejected` means that nothing changed.
  pub restore_bound-Restored :
      (expected target : PlatformSnapshot D) (s : S)
      → n.mutation_guard ≡ unconditional
      → RestoredPost n i view
          (owns_current b expected)
          (n.restore i.resource target)
          s
          (restore_bound b n i expected target s)
  unfolding restore_bound restore_unguarded by_guard when_current when_same
  restore_bound-Restored expected target s g =
      bound_or_refused
        (RestoredPost n i view (owns_current b expected) (n.restore i.resource target) s)
        (owns_current b expected) (n.restore i.resource target) (restore_unguarded b n i target)
        (n.restore_guarded i.resource expected target) s (λ e t v. v)
        (λ onto m.
          from_restore-Restored n i view (owns_current b expected) (n.restore i.resource target) s
            (n.restore i.resource target onto).0 (n.restore i.resource target onto).1 m)
        g
