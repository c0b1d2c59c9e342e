-- ===== src/Engine/Recover/Cleared.antt =====
-- What the outcomes of crash recovery mean.
use osdns.Prelude.{
  not, ◌||◌, ◌≡◌, refl, subst, Bool-cases, Bool, true, false, inl, inr, some, ◌∷◌, ◌&&◌, arith,
  if◌then◌else◌,
}
use osdns.Text.{text_eq_refl}
use osdns.Error.{Fallible, ok, err, is_resource_gone}
use osdns.Platform.{PlatformSnapshot, ResourceStatus, same, gone, replaced, ambiguous, Backend}
use osdns.Journal.{JournalRecord}
use osdns.Tx.{
  History, ret, call_status, call_capture, call_fire, after_recovery_readback,
  after_recovery_restore,
}
use osdns.Tx.History.{last_read, last_status, journaled}
use osdns.Tx.Logic.{Oracle, Post, Safe, Safe-bind}
use osdns.Engine.Monitor.{monitor}
use osdns.Engine.Compensate.{Compensated}
use osdns.Engine.Compensate.Guard.{CompensatePost, settled_if_ok, compensate-Safe}
use osdns.Engine.Live.Synced.{bound, is_some}
use osdns.Engine.Restore.Reason.{ended, reason, bound_eq}
use osdns.Engine.Recover.{
  RecoveryOutcome, gone_outcome, replaced_outcome, identity_mismatch, journal_cleared,
  restored_outcome, external_conflict, clear_as, clear_and_fire, recovered_as, recover_owned,
  evidence_owns, recover_current, recover_same, recover_status, recover_record,
}

-- The outcomes that say that the journal record is settled, and those that keep it.
abbrev pub clears : RecoveryOutcome → Bool
clears (gone_outcome r l) = true
clears (replaced_outcome r l) = true
clears (journal_cleared r l) = true
clears (restored_outcome r l) = true
clears _ = false

abbrev pub keeps : RecoveryOutcome → Bool
keeps (identity_mismatch r l) = true
keeps (external_conflict r l) = true
keeps _ = false

-- What was known to be journaled still is.
abbrev pub still_journaled : {D I : Type 0} → Bool → JournalRecord D I → History D I → Bool
still_journaled known x h = not known || is_some (journaled x.resource h)

module _ {D I : Type 0} (b : Backend D) where
  -- The other outcomes are not for `recover_record` to give.
  abbrev pub tells : Bool → JournalRecord D I → History D I → RecoveryOutcome → Bool
  tells known x g outcome =
      if clears outcome then ended b x g else keeps outcome && still_journaled known x g

  abbrev pub RecoverPost : Bool → JournalRecord D I → Post D I (Fallible RecoveryOutcome)
  RecoverPost known x g (ok outcome) = tells known x g outcome ≡ true
  RecoverPost known x g (err e) = Unit {0}

module _ {D I : Type 0} (b : Backend D) (o : Oracle D I) (known : Bool)
    (x : JournalRecord D I) where
  clear_as-Safe :
      (outcome : RecoveryOutcome) (h : History D I)
      → clears outcome ≡ true
      → reason b x h ≡ true
      → Safe o (monitor b) (RecoverPost b known x) (clear_as x outcome) h
  unfolding clear_as
  clear_as-Safe outcome h c r = ground (arith, text_eq_refl x.resource.text)

  clear_and_fire-Safe :
      (outcome : RecoveryOutcome) (h : History D I)
      → clears outcome ≡ true
      → reason b x h ≡ true
      → Safe o (monitor b) (RecoverPost b known x) (clear_and_fire x outcome) h
  unfolding clear_and_fire
  clear_and_fire-Safe outcome h c r = ground (arith, text_eq_refl x.resource.text)

  recovered_as-Safe :
      (c : Compensated D) (h : History D I)
      → settled_if_ok b x.resource x.before h c.0 ≡ true
      → Safe o (monitor b) (RecoverPost b known x) (recovered_as b x c) h
  unfolding recovered_as
  recovered_as-Safe (ok identity, p) h s = clear_and_fire-Safe _ h refl (ground arith)
  recovered_as-Safe (err e, p) h s = ground (arith, text_eq_refl x.resource.text)

  recover_owned-Safe :
      (h : History D I)
      → bound x ≡ true
      → Safe o (monitor b) (RecoverPost b known x) (recover_owned b x) h
  unfolding recover_owned
  recover_owned-Safe h v =
      Safe-bind o (monitor b) (CompensatePost b x.identity x.before h) _ _ _ h
        (compensate-Safe b o x.identity (record { evidence = x.applied; target = x.before })
          (some after_recovery_restore) h)
        λ g c p.
          recovered_as-Safe c g
            (subst (λ r. settled_if_ok b r x.before g c.0 ≡ true) (bound_eq x v) p.1)

  recover_current-Safe :
      (current : PlatformSnapshot D) (h : History D I)
      → bound x ≡ true
      → last_read x.resource h ≡ some current
      → still_journaled known x h ≡ true
      → Safe o (monitor b) (RecoverPost b known x) (recover_current b x current) h
  unfolding recover_current
  recover_current-Safe current h v e j = (refl, go (o h (call_fire after_recovery_readback)))
    where
      go :
          (r : Fallible (Unit {0}))
          → Safe o
              (monitor b)
              (RecoverPost b known x)
              (elim r [
                | ok u ↦
                    if b.equivalent current x.before
                    then clear_and_fire x (journal_cleared x.resource x.lease_id)
                    else if evidence_owns b x.applied current
                    then recover_owned b x
                    else ret (ok (external_conflict x.resource x.lease_id))
                | err f ↦ ret (err f)
              ])
              (record { call = call_fire after_recovery_readback; reply = r } ∷ h)
      go (err f) = tt
      go (ok u) = elim (Bool-cases (b.equivalent current x.before)) [
        | inl same_before ↦ rw same_before (clear_and_fire-Safe _ _ refl (ground arith))
        | inr other ↦ rw other (elim (Bool-cases (evidence_owns b x.applied current)) [
          | inl owned ↦ rw owned (recover_owned-Safe _ v)
          | inr foreign ↦ rw foreign j
        ])
      ]

  recover_same-Safe :
      (r : Fallible (PlatformSnapshot D)) (h : History D I)
      → bound x ≡ true
      → still_journaled known x h ≡ true
      → Safe o
          (monitor b)
          (RecoverPost b known x)
          (recover_same b x r)
          (record { call = call_capture x.resource; reply = r } ∷ h)
  unfolding recover_same
  recover_same-Safe (ok current) h v j =
      recover_current-Safe current _ v (rw (text_eq_refl x.resource.text)) j
  recover_same-Safe (err e) h v j = elim (Bool-cases (is_resource_gone e)) [
    | inl departed ↦
        rw departed (clear_as-Safe _ _ refl (ground (arith, text_eq_refl x.resource.text)))
    | inr other ↦ rw other tt
  ]

  recover_status-Safe :
      (s : ResourceStatus) (h : History D I)
      → bound x ≡ true
      → last_status x.resource h ≡ some s
      → still_journaled known x h ≡ true
      → Safe o (monitor b) (RecoverPost b known x) (recover_status b x s) h
  unfolding recover_status
  recover_status-Safe gone h v e j = clear_as-Safe _ h refl (ground arith)
  recover_status-Safe replaced h v e j = clear_as-Safe _ h refl (ground arith)
  recover_status-Safe ambiguous h v e j = j
  recover_status-Safe same h v e j = (refl, recover_same-Safe (o h (call_capture x.resource)) h v j)

  -- For a record whose identity names its resource, `recover_record` obeys the monitor:
  -- it restores native state only over a latest read that the evidence it hands over owns. `Gone`,
  -- `Replaced`, `JournalCleared` and `Restored` mean that the removal of the record was the last
  -- journal event, and that the resource departed or its latest read, with no write since, is
  -- equivalent to the state before the lease. `ExternalConflict` and `IdentityMismatch` mean that
  -- a record of the resource that was known to be journaled still is. No other outcome is given.
  pub recover_record-Safe :
      (h : History D I)
      → bound x ≡ true
      → still_journaled known x h ≡ true
      → Safe o (monitor b) (RecoverPost b known x) (recover_record b x) h
  unfolding recover_record
  recover_record-Safe h v j = (refl, go (o h (call_status x.identity)))
    where
      go :
          (r : Fallible ResourceStatus)
          → Safe o
              (monitor b)
              (RecoverPost b known x)
              (elim r [ ok s ↦ recover_status b x s | err e ↦ ret (err e) ])
              (record { call = call_status x.identity; reply = r } ∷ h)
      go (err e) = tt
      go (ok s) = recover_status-Safe s _ v (rw v) j
