-- ===== src/Engine/Mutate.antt =====
-- manager.rs: `mutate_and_verify`, its fault points and its failures.
pub mod Verified
pub mod Confined
use osdns.Prelude.{Bool, true, false, Option, none, some, if◌then◌else◌}
use osdns.Error.{
  Error, Result, ok, err, Fallible, resource_identity, external_modification, verification_failed,
}
use osdns.Platform.{
  ResourceIdentity, PlatformSnapshot, MutationAttempt, same, performed, rejected, indeterminate,
  durable, best_effort, Backend, VerifiedMutation, NormalizedConfig,
}
use osdns.Tx.{
  TxPoint, after_apply, after_readback, after_verify, after_update_apply, after_update_readback,
  after_update_verify, Tx, ret, ask, ◌>>=◌, ◌>>◌, or_fail, status, readback, apply_bound, fire,
  suppress,
}
use osdns.Engine.Compensate.{MutationResidue, unchanged, rollback_proven}

pub record MutatePoints : Type 0 where
  pub apply : TxPoint
  pub read : TxPoint
  pub verify : TxPoint
  pub suppress_events : Bool

abbrev pub initial_points : MutatePoints
initial_points = record {
  apply = after_apply;
  read = after_readback;
  verify = after_verify;
  suppress_events = true;
}

abbrev pub reconcile_points : MutatePoints
reconcile_points = record initial_points { suppress_events = false }

abbrev pub update_points : MutatePoints
update_points = record {
  apply = after_update_apply;
  read = after_update_readback;
  verify = after_update_verify;
  suppress_events = true;
}

pub record MutationFailure (D : Type 0) : Type 0 where
  pub error : Error
  pub residue : MutationResidue D

-- Why verification stopped, with the proof that the rollback may use.
pub record Unverified (D : Type 0) : Type 0 where
  pub error : Error
  pub produced : Option (PlatformSnapshot D)

abbrev unverified :
    {D : Type 0} → Option (PlatformSnapshot D) → Error → Result (VerifiedMutation D) (Unverified D)
unverified produced e = err (record { error = e; produced = produced })

abbrev suppress_if : {D I : Type 0} → Bool → PlatformSnapshot D → Tx D I (Unit {0})
suppress_if true s = suppress s
suppress_if false s = ret tt

module _ {D I : Type 0} (b : Backend D) where
  -- The `match` on `ownership_identity` that ends the verification.
  issue :
      ResourceIdentity I
      → MutatePoints
      → Option (PlatformSnapshot D)
      → PlatformSnapshot D
      → Tx D I (Result (VerifiedMutation D) (Unverified D))
  issue identity points produced actual = elim b.ownership_identity [
    | durable ↦ elim produced [
      | none ↦ ret (unverified none (verification_failed identity.resource))
      | some proof ↦
          if b.proves_current proof actual
          then (suppress_if points.suppress_events proof
              >> ret (ok (record { proof = some proof; observed = actual })))
          else ret (unverified (some proof) (external_modification identity.resource))
    ]
    | best_effort ↦ do
      suppress_if points.suppress_events actual
      ret (ok (record { proof = produced; observed = actual }))
  ]

  -- The branch for `MutationAttempt::Performed`, up to where it calls `fail`.
  verify_mutation :
      ResourceIdentity I
      → NormalizedConfig
      → MutatePoints
      → Option (PlatformSnapshot D)
      → Tx D I (Result (VerifiedMutation D) (Unverified D))
  unfolding issue
  verify_mutation identity plan points produced =
      let fail = unverified produced in
      or_fail fail (fire points.apply) λ _. or_fail fail (status identity) λ before. elim before [
        | same ↦ or_fail fail (readback identity.resource) λ actual.
            or_fail fail (fire points.read) λ _.
              if b.matches_desired actual plan
              then (or_fail fail (status identity) λ now. elim now [
                | same ↦
                    or_fail fail (fire points.verify) λ _. issue identity points produced actual
                | _ ↦ ret (fail (resource_identity b.kind identity.resource))
              ])
              else ret (fail (verification_failed identity.resource))
        | _ ↦ ret (fail (resource_identity b.kind identity.resource))
      ]

  roll_back :
      ResourceIdentity I
      → PlatformSnapshot D
      → Error
      → Option (PlatformSnapshot D)
      → Tx D I (Result (VerifiedMutation D) (MutationFailure D))
  roll_back identity expected e produced = do
    residue ← rollback_proven b identity produced expected
    ret (err (record { error = e; residue = residue }))

  after_verification :
      ResourceIdentity I
      → PlatformSnapshot D
      → Result (VerifiedMutation D) (Unverified D)
      → Tx D I (Result (VerifiedMutation D) (MutationFailure D))
  after_verification identity expected (ok m) = ret (ok m)
  after_verification identity expected (err u) = roll_back identity expected u.error u.produced

  after_attempt :
      ResourceIdentity I
      → PlatformSnapshot D
      → NormalizedConfig
      → MutatePoints
      → MutationAttempt D
      → Tx D I (Result (VerifiedMutation D) (MutationFailure D))
  after_attempt identity expected plan points (rejected e) =
      ret (err (record { error = e; residue = unchanged }))
  after_attempt identity expected plan points (indeterminate e produced) =
      roll_back identity expected e produced
  after_attempt identity expected plan points (performed produced) = do
    outcome ← verify_mutation identity plan points produced
    after_verification identity expected outcome

  pub mutate_and_verify :
      ResourceIdentity I
      → PlatformSnapshot D
      → NormalizedConfig
      → MutatePoints
      → Tx D I (Result (VerifiedMutation D) (MutationFailure D))
  mutate_and_verify identity expected plan points = do
    attempt ← apply_bound identity expected plan
    after_attempt identity expected plan points attempt
