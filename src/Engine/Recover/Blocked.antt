-- ===== src/Engine/Recover/Blocked.antt =====
-- Recovery of a journaled resource before a new lease: `recover_for_resource`.
use osdns.Prelude.{refl, false, ◌≡◌, true, ◌&&◌, Bool-cases, inl, inr, arith}
use osdns.Text.{Text, text_eq}
use osdns.Error.{Result, Fallible, ok, err, journal_corrupt}
use osdns.Platform.{Backend}
use osdns.Journal.{JournalRecord}
use osdns.Tx.{History}
use osdns.Tx.Logic.{Oracle, Post, Safe, Safe-bind}
use osdns.Engine.Monitor.{monitor}
use osdns.Engine.Live.Synced.{bound}
use osdns.Engine.Restore.Reason.{ended}
use osdns.Engine.Recover.{
  RecoveryOutcome, external_conflict, identity_mismatch, RecoverBlock, block_of,
  recover_for_resource,
}
use osdns.Engine.Recover.Cleared.{RecoverPost, recover_record-Safe}

module _ {D I : Type 0} (b : Backend D) where
  -- What `Ok` means: the record is the owner's, and it ended.
  abbrev pub UnblockedPost : Text → JournalRecord D I → Post D I (Result (Unit {0}) RecoverBlock)
  UnblockedPost owner x g (ok u) = (text_eq x.owner owner && ended b x g) ≡ true
  UnblockedPost owner x g (err e) = Unit {0}

  unblocked :
      (x : JournalRecord D I) (g : History D I) (r : Fallible RecoveryOutcome)
      → RecoverPost b false x g r
      → (owner : Text) → text_eq x.owner owner ≡ true
      → UnblockedPost owner x g (block_of r)
  unblocked x g (ok (external_conflict r l)) p owner e = tt
  unblocked x g (ok (identity_mismatch r l)) p owner e = tt
  unblocked x g (ok _) p owner e = ground arith
  unblocked x g (err journal_corrupt) p owner e = tt
  unblocked x g (err _) p owner e = tt

  -- For a record whose identity names its resource, `recover_for_resource` obeys the
  -- monitor. `Ok` is given only for a record of the same owner whose removal was the last journal
  -- event, with its resource departed or last read as equivalent to the state before its lease.
  pub recover_for_resource-Safe :
      (o : Oracle D I) (owner : Text) (x : JournalRecord D I) (h : History D I)
      → bound x ≡ true
      → Safe o (monitor b) (UnblockedPost owner x) (recover_for_resource b owner x) h
  unfolding recover_for_resource
  recover_for_resource-Safe o owner x h v = elim (Bool-cases (text_eq x.owner owner)) [
    | inl e ↦ rw e (
        Safe-bind o (monitor b) (RecoverPost b false x) (UnblockedPost owner x) _ _ h
          (recover_record-Safe b o false x h v refl) (λ g r p. unblocked x g r p owner e))
    | inr e ↦ rw e tt
  ]
