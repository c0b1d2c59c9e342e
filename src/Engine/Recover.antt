-- ===== src/Engine/Recover.antt =====
-- manager.rs: crash recovery (`recover_record`, `recover_for_resource`, `recover_stale`,
-- `abandon_journal`) and `RecoveryOutcome`.
pub mod Cleared
pub mod Confined
pub mod Blocked
pub mod Abandoned
pub mod Stale
use osdns.Prelude.{ℕ, Bool, true, false, Option, none, some, List, [], ◌∷◌, if◌then◌else◌}
use osdns.Text.{Text, text_eq}
use osdns.Error.{
  ResourceId, Error, Result, ok, err, Fallible, conflict, resource_occupied, journal_corrupt,
  is_external_modification, is_resource_gone,
}
use osdns.Platform.{
  PlatformSnapshot, ResourceStatus, same, gone, replaced, ambiguous, Backend, owns_current,
}
use osdns.Journal.{Phase, JournalRecord}
use osdns.Tx.{
  call_records, call_try_acquire, call_acquire, call_release, after_recovery_readback,
  after_recovery_restore, after_recovery_journal, Tx, ret, ask, ◌>>=◌, ◌>>◌, or_fail, status,
  capture, write, remove, fire,
}
use osdns.Tx.History.{same_resource}
use osdns.Engine.Compensate.{PendingRollback, Compensated, compensate}

pub data RecoveryOutcome : Type 0 where
  gone_outcome : ResourceId → ℕ → RecoveryOutcome
  replaced_outcome : ResourceId → ℕ → RecoveryOutcome
  identity_mismatch : ResourceId → ℕ → RecoveryOutcome
  journal_cleared : ResourceId → ℕ → RecoveryOutcome
  restored_outcome : ResourceId → ℕ → RecoveryOutcome
  external_conflict : ResourceId → ℕ → RecoveryOutcome
  foreign_owner : ResourceId → Text → RecoveryOutcome
  busy : ResourceId → RecoveryOutcome
  failed : ResourceId → ℕ → RecoveryOutcome

pub data RecoverBlock : Type 0 where
  block_journal : Error → RecoverBlock
  block_conflict : RecoverBlock

abbrev pub block_of : Fallible RecoveryOutcome → Result (Unit {0}) RecoverBlock
block_of (ok (external_conflict r l)) = err block_conflict
block_of (ok (identity_mismatch r l)) = err block_conflict
block_of (ok _) = ok tt
block_of (err journal_corrupt) = err (block_journal journal_corrupt)
block_of (err _) = err block_conflict

abbrev pub or_failed : ResourceId → ℕ → Fallible RecoveryOutcome → RecoveryOutcome
or_failed r l (ok outcome) = outcome
or_failed r l (err e) = failed r l

abbrev pub busy_or_failed : ResourceId → ℕ → Error → RecoveryOutcome
busy_or_failed r l (conflict s reason) = busy r
busy_or_failed r l _ = failed r l

module _ {D : Type 0} (b : Backend D) where
  -- `record.applied.is_some_and(|applied| owns_current(applied, &current))`
  abbrev pub evidence_owns : Option (PlatformSnapshot D) → PlatformSnapshot D → Bool
  evidence_owns none current = false
  evidence_owns (some applied) current = owns_current b applied current

module _ {D I : Type 0} where
  clear_as : JournalRecord D I → RecoveryOutcome → Tx D I (Fallible RecoveryOutcome)
  clear_as x outcome = or_fail (λ e. err e) (remove x.lease_id x.resource) λ _. ret (ok outcome)

  clear_and_fire : JournalRecord D I → RecoveryOutcome → Tx D I (Fallible RecoveryOutcome)
  clear_and_fire x outcome =
      or_fail (λ e. err e) (remove x.lease_id x.resource)
        λ _. or_fail (λ e. err e) (fire after_recovery_journal) λ _. ret (ok outcome)

module _ {D I : Type 0} (b : Backend D) where
  recovered_as : JournalRecord D I → Compensated D → Tx D I (Fallible RecoveryOutcome)
  recovered_as x (ok identity, p) = clear_and_fire x (restored_outcome x.resource x.lease_id)
  recovered_as x (err e, p) =
      or_fail (λ f. err f) (write (record x { phase = Phase.prepared; applied = p.evidence }))
        λ _.
          if is_external_modification e
          then ret (ok (external_conflict x.resource x.lease_id))
          else ret (err e)

  recover_owned : JournalRecord D I → Tx D I (Fallible RecoveryOutcome)
  recover_owned x = do
    outcome ←
        compensate b x.identity (record { evidence = x.applied; target = x.before })
          (some after_recovery_restore)
    recovered_as x outcome

  recover_current : JournalRecord D I → PlatformSnapshot D → Tx D I (Fallible RecoveryOutcome)
  recover_current x current =
      or_fail (λ e. err e) (fire after_recovery_readback)
        λ _.
          if b.equivalent current x.before
          then clear_and_fire x (journal_cleared x.resource x.lease_id)
          else if evidence_owns b x.applied current
          then recover_owned x
          else ret (ok (external_conflict x.resource x.lease_id))

  recover_same :
      JournalRecord D I → Fallible (PlatformSnapshot D) → Tx D I (Fallible RecoveryOutcome)
  recover_same x (ok current) = recover_current x current
  recover_same x (err e) =
      if is_resource_gone e then clear_as x (gone_outcome x.resource x.lease_id) else ret (err e)

  recover_status : JournalRecord D I → ResourceStatus → Tx D I (Fallible RecoveryOutcome)
  recover_status x gone = clear_as x (gone_outcome x.resource x.lease_id)
  recover_status x replaced = clear_as x (replaced_outcome x.resource x.lease_id)
  recover_status x ambiguous = ret (ok (identity_mismatch x.resource x.lease_id))
  recover_status x same = do current ← capture x.resource; recover_same x current

  pub recover_record : JournalRecord D I → Tx D I (Fallible RecoveryOutcome)
  recover_record x = or_fail (λ e. err e) (status x.identity) λ s. recover_status x s

  pub recover_for_resource : Text → JournalRecord D I → Tx D I (Result (Unit {0}) RecoverBlock)
  recover_for_resource owner x =
      if text_eq x.owner owner
      then (recover_record x >>= λ r. ret (block_of r))
      else ret (err block_conflict)

  pub recover_locked : JournalRecord D I → Fallible Bool → Tx D I RecoveryOutcome
  recover_locked x (ok true) = do
    r ← recover_record x
    ask (call_release x.resource) ret
    ret (or_failed x.resource x.lease_id r)
  recover_locked x (ok false) = ret (busy x.resource)
  recover_locked x (err e) = ret (busy_or_failed x.resource x.lease_id e)

  pub recover_one : Text → JournalRecord D I → Tx D I RecoveryOutcome
  recover_one owner x =
      if text_eq x.owner owner
      then (ask (call_try_acquire x.resource) ret >>= recover_locked x)
      else ret (foreign_owner x.resource x.owner)

  pub recover_each : Text → List (JournalRecord D I) → Tx D I (List RecoveryOutcome)
  recover_each owner [] = ret []
  recover_each owner (x ∷ xs) = do
    outcome ← recover_one owner x
    rest ← recover_each owner xs
    ret (outcome ∷ rest)

  pub recover_stale : Text → Tx D I (Fallible (List RecoveryOutcome))
  recover_stale owner =
      or_fail (λ e. err e) (ask call_records ret)
        λ xs. (recover_each owner xs >>= λ outcomes. ret (ok outcomes))

module _ {D I : Type 0} where
  abbrev pub records_for : ResourceId → List (JournalRecord D I) → List (JournalRecord D I)
  records_for r [] = []
  records_for r (x ∷ xs) =
      if same_resource x.resource r then x ∷ records_for r xs else records_for r xs

  abbrev pub any_foreign : Text → List (JournalRecord D I) → Bool
  any_foreign owner [] = false
  any_foreign owner (x ∷ xs) = if text_eq x.owner owner then any_foreign owner xs else true

  pub remove_until_error : ResourceId → List (JournalRecord D I) → Tx D I (Fallible (Unit {0}))
  remove_until_error r [] = ret (ok tt)
  remove_until_error r (x ∷ xs) =
      or_fail (λ e. err e) (remove x.lease_id r) λ _. remove_until_error r xs

  -- A lock is released wherever its guard goes out of scope.
  pub abandon_journal : Text → ResourceId → Tx D I (Fallible (Unit {0}))
  abandon_journal owner r =
      or_fail (λ e. err e) (ask (call_acquire r) ret)
        λ _. do
          found ← ask call_records ret
          result ← elim found [
            | err e ↦ ret (err e)
            | ok xs ↦
                if any_foreign owner (records_for r xs)
                then ret (err (conflict r resource_occupied))
                else remove_until_error r (records_for r xs)
          ]
          ask (call_release r) ret
          ret result
