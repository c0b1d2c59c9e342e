-- ===== src/Manager.antt =====
-- manager.rs: `DnsManager::apply`.
pub mod Seen
pub mod Prepared
pub mod Watched
pub mod Applied
use osdns.Prelude.{Option, none, some, List, [], ◌∷◌, if◌then◌else◌}
use osdns.Text.{Text}
use osdns.Error.{
  ResourceId, Error, Fallible, ok, err, conflict, stale_journal_unresolved, transaction_error,
}
use osdns.Platform.{PlatformSnapshot, ResourceIdentity, Backend, DnsScope, NormalizedConfig}
use osdns.Journal.{JournalRecord}
use osdns.Tx.{
  after_validate, after_resolve, after_lock, after_recovery, after_capture, after_noop_decision,
  call_validate_plan, call_resolve_resources, call_records, call_ensure_watch, call_rescan, Tx, ret,
  ask, ◌>>=◌, or_fail, fire, observe,
}
use osdns.Tx.History.{same_resource}
use osdns.Config.{Capabilities, DnsConfig, validate_against}
use osdns.Engine.Recover.{RecoverBlock, block_journal, block_conflict, recover_for_resource}
use osdns.Engine.Transact.{PreparedLease, transact_with_locks}
use osdns.Ownership.{acquire_all, release_all}
use osdns.Lease.{Lease, Ending, new_owned, restore_state, drop_lease}

abbrev pub block_error : ResourceId → RecoverBlock → Error
block_error r (block_journal e) = e
block_error r block_conflict = conflict r stale_journal_unresolved

-- `swap_remove`: the last item takes the place of the one that is taken.
abbrev init_of : {A : Type 0} → A → List A → List A
init_of x [] = []
init_of x (y ∷ ys) = x ∷ init_of y ys

abbrev last_of : {A : Type 0} → A → List A → A
last_of x [] = x
last_of x (y ∷ ys) = last_of y ys

abbrev close_gap : {A : Type 0} → List A → List A
close_gap [] = []
close_gap (x ∷ xs) = last_of x xs ∷ init_of x xs

module _ {D I : Type 0} where
  abbrev put_back :
      JournalRecord D I
      → Option (JournalRecord D I × List (JournalRecord D I))
      → Option (JournalRecord D I × List (JournalRecord D I))
  put_back y none = none
  put_back y (some (x, xs)) = some (x, y ∷ xs)

  -- The first record of `r`, and the journal without it.
  pub take_record :
      ResourceId → List (JournalRecord D I) → Option (JournalRecord D I × List (JournalRecord D I))
  take_record r [] = none
  take_record r (x ∷ xs) =
      let rest = take_record r xs in
      if same_resource x.resource r then some (x, close_gap xs) else put_back x rest

  pub observe_each :
      List ResourceId → Tx D I (Fallible (List (PlatformSnapshot D) × List (ResourceIdentity I)))
  observe_each [] = ret (ok ([], []))
  observe_each (r ∷ rs) =
      or_fail (λ e. err e) (observe r)
        λ seen.
          or_fail (λ e. err e) (fire after_capture)
            λ _.
              or_fail (λ e. err e) (observe_each rs)
                λ t. ret (ok (seen.snapshot ∷ t.0, seen.identity ∷ t.1))

module _ {D I : Type 0} (b : Backend D) where
  -- `Err(failure) => transaction_error(error, vec![failure.error])` drops the lease of `failure`.
  unwatched : Error → Ending D I → Tx D I (Fallible (Lease D I))
  unwatched e (ok u, lease) = ret (err e)
  unwatched e (err e', lease) =
      drop_lease b lease >>= λ _. ret (err (transaction_error e (e' ∷ [])))

  pub watch_lease : Lease D I → Tx D I (Fallible (Lease D I))
  watch_lease lease = ask call_ensure_watch λ reply. elim reply [
    | ok u ↦ ask call_rescan (λ _. ret (ok lease))
    | err e ↦ (restore_state b lease >>= unwatched e)
  ]

  -- On an error the locks go out of scope.
  pub own_lease : List ResourceId → Fallible (PreparedLease D I) → Tx D I (Fallible (Lease D I))
  own_lease locks (err e) = release_all locks >>= λ _. ret (err e)
  own_lease locks (ok p) = new_owned p.lease_id p.records locks p.was_noop >>= watch_lease

module _ {D I : Type 0} (b : Backend D) (owner : Text) where
  abbrev recover_first :
      ResourceId
      → Option (JournalRecord D I × List (JournalRecord D I))
      → List (JournalRecord D I)
      → Tx D I (Fallible (List (JournalRecord D I)))
  recover_first r none xs = ret (ok xs)
  recover_first r (some (x, rest)) xs = recover_for_resource b owner x >>= λ reply. elim reply [
    | ok u ↦ ret (ok rest)
    | err block ↦ ret (err (block_error r block))
  ]

  pub recover_each : List (JournalRecord D I) → List ResourceId → Tx D I (Fallible (Unit {0}))
  recover_each xs [] = ret (ok tt)
  recover_each xs (r ∷ rs) =
      or_fail (λ e. err e) (recover_first r (take_record r xs) xs) λ ys. recover_each ys rs

  -- Under the locks, up to the records of the lease.
  pub prepare_lease : List ResourceId → NormalizedConfig → Tx D I (Fallible (PreparedLease D I))
  prepare_lease resources plan =
      or_fail (λ e. err e) (fire after_lock)
        λ _.
          or_fail (λ e. err e) (ask call_records ret)
            λ journals.
              or_fail (λ e. err e) (recover_each journals resources)
                λ _.
                  or_fail (λ e. err e) (fire after_recovery)
                    λ _.
                      or_fail (λ e. err e) (observe_each resources)
                        λ t.
                          or_fail (λ e. err e) (fire after_noop_decision)
                            λ _. transact_with_locks b owner resources plan t.0 t.1

  pub apply_plan : DnsScope → NormalizedConfig → Tx D I (Fallible (Lease D I))
  apply_plan scope plan =
      or_fail (λ e. err e) (ask (call_validate_plan scope plan) ret)
        λ _.
          or_fail (λ e. err e) (fire after_validate)
            λ _.
              or_fail (λ e. err e) (ask (call_resolve_resources scope plan) ret)
                λ resources.
                  or_fail (λ e. err e) (fire after_resolve)
                    λ _.
                      or_fail (λ e. err e) (acquire_all resources)
                        λ locks. prepare_lease resources plan >>= own_lease b locks

  pub apply : DnsConfig → Capabilities → Tx D I (Fallible (Lease D I))
  apply config caps = elim (validate_against config caps) [
    | err e ↦ ret (err e)
    | ok plan ↦ apply_plan config.scope plan
  ]
