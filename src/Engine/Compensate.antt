-- ===== src/Engine/Compensate.antt =====
-- manager.rs: `compensate` and `rollback_proven`.
pub mod Guard
pub mod Confined
use osdns.Prelude.{◌≡◌, Bool, true, false, Option, none, some, not, ◌&&◌, ◌||◌, if◌then◌else◌}
use osdns.Error.{
  Error, ok, err, Fallible, resource_identity, indeterminate_mutation, external_modification,
  verification_failed,
}
use osdns.Platform.{
  ResourceIdentity, PlatformSnapshot, is_same, same, performed, rejected, indeterminate, durable,
  best_effort, Backend, owns_current,
}
use osdns.Tx.{
  TxPoint, Tx, ret, ask, ◌>>=◌, ◌>>◌, or_fail, status, readback, restore_bound, fire, suppress,
}

pub record PendingRollback (D : Type 0) : Type 0 where
  pub evidence : Option (PlatformSnapshot D)
  pub target : PlatformSnapshot D

pub data MutationResidue (D : Type 0) : Type 0 where
  unchanged : MutationResidue D
  restored : Option (PlatformSnapshot D) → MutationResidue D
  pending : PendingRollback D → MutationResidue D

abbrev fire_option : {D I : Type 0} → Option TxPoint → Tx D I (Fallible (Unit {0}))
fire_option none = ret (ok tt)
fire_option (some point) = fire point

-- `pending.evidence = Some(produced)` if there is a newer identity.
abbrev newer : {D : Type 0} → PendingRollback D → Option (PlatformSnapshot D) → PendingRollback D
newer p none = p
newer p (some produced) = record p { evidence = some produced }

abbrev pub Compensated : Type 0 → Type 0
Compensated D = Fallible (Option (PlatformSnapshot D)) × PendingRollback D

abbrev residue_of : {D : Type 0} → Compensated D → MutationResidue D
residue_of (ok identity, p) = restored identity
residue_of (err e, p) = pending p

module _ {D : Type 0} (b : Backend D) where
  -- `evidence.filter(|proof| owns_current(proof, current))`
  abbrev owned_evidence :
      Option (PlatformSnapshot D) → PlatformSnapshot D → Option (PlatformSnapshot D)
  owned_evidence none current = none
  owned_evidence (some proof) current = if owns_current b proof current then some proof else none

  abbrev target_identity :
      Option (PlatformSnapshot D)
      → PlatformSnapshot D
      → PlatformSnapshot D
      → Option (PlatformSnapshot D)
  target_identity (some proof) target current = some proof
  target_identity none target current = if owns_current b target current then some target else none

  abbrev fresh_identity :
      Option (PlatformSnapshot D) → PlatformSnapshot D → Option (PlatformSnapshot D)
  fresh_identity (some proof) now = owned_evidence (some proof) now
  fresh_identity none now = elim b.ownership_identity [ best_effort ↦ some now | durable ↦ none ]

module _ {D I : Type 0} (b : Backend D) where
  -- The tail of `compensate`, after the native restore was performed.
  verify_restored : ResourceIdentity I → PendingRollback D → Option TxPoint → Tx D I (Compensated D)
  verify_restored identity p after_restore =
      or_fail (λ e. (err e, p)) (fire_option after_restore)
        λ _.
          or_fail (λ e. (err e, p)) (readback identity.resource)
            λ now.
              or_fail (λ e. (err e, p)) (status identity)
                λ s.
                  if is_same s && b.equivalent now p.target
                  then (suppress now >> ret (ok (fresh_identity b p.evidence now), p))
                  else ret (err (verification_failed identity.resource), p)

  restore_owned :
      ResourceIdentity I
      → PendingRollback D
      → Option TxPoint
      → PlatformSnapshot D
      → Tx D I (Compensated D)
  unfolding verify_restored
  restore_owned identity p after_restore proof = do
    attempt ← restore_bound identity proof p.target
    elim attempt [
      | performed produced ↦
          verify_restored identity (record p { evidence = produced }) after_restore
      | indeterminate e produced ↦ ret (err e, newer p produced)
      | rejected e ↦ ret (err e, p)
    ]

  pub compensate : ResourceIdentity I → PendingRollback D → Option TxPoint → Tx D I (Compensated D)
  unfolding restore_owned
  compensate identity p after_restore =
      or_fail (λ e. (err e, p)) (status identity)
        λ s. elim s [
          | same ↦
              or_fail (λ e. (err e, p)) (readback identity.resource)
                λ current.
                  if b.equivalent current p.target
                  then ret (
                    ok (target_identity b (owned_evidence b p.evidence current) p.target current),
                    p,
                  )
                  else elim p.evidence [
                    | none ↦ ret (err (indeterminate_mutation b.kind), p)
                    | some proof ↦
                        if owns_current b proof current
                        then restore_owned identity p after_restore proof
                        else ret (err (external_modification identity.resource), p)
                  ]
          | _ ↦ ret (err (resource_identity b.kind identity.resource), p)
        ]

  pub rollback_proven :
      ResourceIdentity I
      → Option (PlatformSnapshot D)
      → PlatformSnapshot D
      → Tx D I (MutationResidue D)
  rollback_proven identity proof target = do
    outcome ← compensate identity (record { evidence = proof; target = target }) none
    ret (residue_of outcome)
