-- ===== src/Engine/Mutate/Confined.antt =====
-- A mutation with its rollback is confined to its resource.
use osdns.Prelude.{◌≡◌, true, Option, List, arith}
use osdns.Error.{ResourceId, Error, Result, ok, err}
use osdns.Platform.{
  ResourceIdentity, PlatformSnapshot, MutationAttempt, performed, rejected, indeterminate, Backend,
  VerifiedMutation, NormalizedConfig,
}
use osdns.Tx.{call_apply_bound, History}
use osdns.Tx.Logic.{Oracle, Any, Safe, Safe-bind}
use osdns.Engine.Mutate.{
  MutatePoints, Unverified, roll_back, verify_mutation, after_verification, after_attempt,
  mutate_and_verify,
}
use osdns.Engine.Confined.{among, confined}
use osdns.Engine.Compensate.Confined.{rollback_proven-Confined}

module _ {D I : Type 0} (b : Backend D) (o : Oracle D I) (rs : List ResourceId) where
  verify_mutation-Confined :
      (i : ResourceIdentity I) (plan : NormalizedConfig) (points : MutatePoints)
      (produced : Option (PlatformSnapshot D)) (h : History D I)
      → Safe o (confined rs) Any (verify_mutation b i plan points produced) h
  unfolding verify_mutation
  verify_mutation-Confined i plan points produced h = ground arith

  roll_back-Confined :
      (i : ResourceIdentity I) (expected : PlatformSnapshot D) (e : Error)
      (produced : Option (PlatformSnapshot D)) (h : History D I)
      → among rs i.resource ≡ true
      → Safe o (confined rs) Any (roll_back b i expected e produced) h
  unfolding roll_back
  roll_back-Confined i expected e produced h a =
      Safe-bind o (confined rs) Any Any _ _ h
        (rollback_proven-Confined b o rs i produced expected h a) (λ g r _. tt)

  after_verification-Confined :
      (i : ResourceIdentity I) (expected : PlatformSnapshot D)
      (r : Result (VerifiedMutation D) (Unverified D)) (h : History D I)
      → among rs i.resource ≡ true
      → Safe o (confined rs) Any (after_verification b i expected r) h
  unfolding after_verification
  after_verification-Confined i expected (ok m) h a = tt
  after_verification-Confined i expected (err u) h a =
      roll_back-Confined i expected u.error u.produced h a

  after_attempt-Confined :
      (i : ResourceIdentity I) (expected : PlatformSnapshot D) (plan : NormalizedConfig)
      (points : MutatePoints) (attempt : MutationAttempt D) (h : History D I)
      → among rs i.resource ≡ true
      → Safe o (confined rs) Any (after_attempt b i expected plan points attempt) h
  unfolding after_attempt
  after_attempt-Confined i expected plan points (rejected e) h a = tt
  after_attempt-Confined i expected plan points (indeterminate e produced) h a =
      roll_back-Confined i expected e produced h a
  after_attempt-Confined i expected plan points (performed produced) h a =
      Safe-bind o (confined rs) Any Any _ _ h (verify_mutation-Confined i plan points produced h)
        (λ g r _. after_verification-Confined i expected r g a)

  pub mutate_and_verify-Confined :
      (i : ResourceIdentity I) (expected : PlatformSnapshot D) (plan : NormalizedConfig)
      (points : MutatePoints) (h : History D I)
      → among rs i.resource ≡ true
      → Safe o (confined rs) Any (mutate_and_verify b i expected plan points) h
  unfolding mutate_and_verify
  mutate_and_verify-Confined i expected plan points h a = (
    a,
    after_attempt-Confined i expected plan points (o h (call_apply_bound i expected plan)) _ a,
  )
