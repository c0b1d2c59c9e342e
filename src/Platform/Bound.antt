-- ===== src/Platform/Bound.antt =====
-- platform/mod.rs: the default `apply_bound` and `restore_bound`, over the operations that a native
-- backend implements. An operation takes the native state and gives it back beside its reply.
pub mod Refined
use osdns.Prelude.{Bool, true, false, Option, none, some, if◌then◌else◌}
use osdns.Error.{
  ResourceId, Error, Result, Fallible, ok, err, is_external_modification, external_modification,
  resource_identity,
}
use osdns.Platform.{
  PlatformSnapshot, ResourceIdentity, ResourceStatus, same, gone, replaced, ambiguous,
  MutationAttempt, performed, rejected, indeterminate, Backend, owns_current, NormalizedConfig,
}

pub data MutationGuard : Type 0 where
  compare_and_mutate unconditional : MutationGuard

-- The methods that read or change the native state.
pub record Native (S D I : Type 0) : Type 0 where
  pub mutation_guard : MutationGuard
  pub resource_status : ResourceIdentity I → S → Fallible ResourceStatus × S
  pub readback : ResourceId → S → Fallible (PlatformSnapshot D) × S
  pub apply : ResourceId → NormalizedConfig → S → Fallible (Unit {0}) × S
  pub restore : ResourceId → PlatformSnapshot D → S → Fallible (Unit {0}) × S
  pub apply_guarded : ResourceId → PlatformSnapshot D → NormalizedConfig → S → MutationAttempt D × S
  pub restore_guarded :
      ResourceId → PlatformSnapshot D → PlatformSnapshot D → S → MutationAttempt D × S

-- `MutationAttempt::from_apply_result`
abbrev pub from_apply_result : {D : Type 0} → Fallible (Unit {0}) → MutationAttempt D
from_apply_result (ok u) = performed none
from_apply_result (err e) = if is_external_modification e then rejected e else indeterminate e none

-- The result of `restore`.
abbrev pub from_restore_result : {D : Type 0} → Fallible (Unit {0}) → MutationAttempt D
from_restore_result (ok u) = performed none
from_restore_result (err e) = indeterminate e none

module _ {S D I : Type 0} (b : Backend D) (n : Native S D I) (i : ResourceIdentity I) where
  -- A status that is not `Same` refuses the mutation, and so does a failed check.
  when_same : (S → MutationAttempt D × S) → Fallible ResourceStatus × S → MutationAttempt D × S
  when_same go (ok same, s) = go s
  when_same go (ok status, s) = (rejected (resource_identity b.kind i.resource), s)
  when_same go (err e, s) = (rejected e, s)

  -- The incarnation is checked again between the comparison and the mutation.
  when_current :
      (PlatformSnapshot D → Bool)
      → (S → MutationAttempt D × S)
      → Fallible (PlatformSnapshot D) × S
      → MutationAttempt D × S
  when_current test mutate (err e, s) = (rejected e, s)
  when_current test mutate (ok current, s) =
      if test current
      then when_same mutate (n.resource_status i s)
      else (rejected (external_modification i.resource), s)

  by_guard :
      (PlatformSnapshot D → Bool)
      → (S → MutationAttempt D × S)
      → (S → MutationAttempt D × S)
      → MutationGuard
      → S
      → MutationAttempt D × S
  by_guard test mutate guarded compare_and_mutate s = guarded s
  by_guard test mutate guarded unconditional s = when_current test mutate (n.readback i.resource s)

  apply_unguarded : NormalizedConfig → S → MutationAttempt D × S
  apply_unguarded plan s = let r = n.apply i.resource plan s in (from_apply_result r.0, r.1)

  restore_unguarded : PlatformSnapshot D → S → MutationAttempt D × S
  restore_unguarded target s =
      let r = n.restore i.resource target s in (from_restore_result r.0, r.1)

  pub apply_bound : PlatformSnapshot D → NormalizedConfig → S → MutationAttempt D × S
  apply_bound expected plan s =
      when_same
        (by_guard (b.equivalent expected) (apply_unguarded plan)
          (n.apply_guarded i.resource expected plan) n.mutation_guard)
        (n.resource_status i s)

  pub restore_bound : PlatformSnapshot D → PlatformSnapshot D → S → MutationAttempt D × S
  restore_bound expected target s =
      when_same
        (by_guard (owns_current b expected) (restore_unguarded target)
          (n.restore_guarded i.resource expected target) n.mutation_guard)
        (n.resource_status i s)
