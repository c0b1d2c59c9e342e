-- ===== src/Engine/Restore.antt =====
-- manager.rs: `restore_live_state`.
pub mod Reason
pub mod Ended
pub mod Confined
use osdns.Prelude.{Bool, true, false, Option, none, some, if◌then◌else◌}
use osdns.Error.{
  Error, ok, err, Fallible, resource_identity, external_modification, is_resource_gone,
}
use osdns.Platform.{
  PlatformSnapshot, ResourceStatus, same, gone, replaced, ambiguous, Backend, owns_current,
}
use osdns.Journal.{Phase, JournalRecord}
use osdns.Tx.{
  after_restore_readback, after_restore_restore, after_restore_journal, Tx, ret, ask, ◌>>=◌,
  or_fail, status, readback, remove, fire,
}
use osdns.Engine.Compensate.{PendingRollback, Compensated, compensate}
use osdns.Engine.Live.{
  LiveState, LiveRecord, committed, compensating, Outcome, applied_of, retain_compensation,
  resolve_live,
}

module _ {D I : Type 0} where
  abbrev forget : LiveRecord D I → Tx D I (Outcome D I)
  forget live =
      or_fail (λ e. (err e, live)) (remove live.entry.lease_id live.entry.resource)
        λ _. ret (ok tt, live)

  abbrev forget_and_fire : LiveRecord D I → Tx D I (Outcome D I)
  forget_and_fire live =
      or_fail (λ e. (err e, live)) (remove live.entry.lease_id live.entry.resource)
        λ _. or_fail (λ e. (err e, live)) (fire after_restore_journal) λ _. ret (ok tt, live)

module _ {D I : Type 0} (b : Backend D) where
  after_compensating : LiveRecord D I → JournalRecord D I → Compensated D → Tx D I (Outcome D I)
  after_compensating live resume (err e, p) = do
    (_, live') ← retain_compensation live p resume
    ret (err e, live')
  after_compensating live resume (ok identity, p) =
      forget_and_fire (record live { state = compensating p resume })

  -- From the point where `applied` is owned.
  restore_owned : LiveRecord D I → PlatformSnapshot D → Tx D I (Outcome D I)
  restore_owned live applied =
      let p : PendingRollback D = record { evidence = some applied; target = live.entry.before } in
      let resume = record live.entry { phase = Phase.prepared; applied = none } in
      do
        outcome ← compensate b live.entry.identity p (some after_restore_restore)
        after_compensating (record live { state = compensating p resume }) resume outcome

  restore_applied :
      Option (PlatformSnapshot D) → LiveRecord D I → PlatformSnapshot D → Tx D I (Outcome D I)
  restore_applied none live current = ret (err (external_modification live.entry.resource), live)
  restore_applied (some applied) live current =
      if owns_current b applied current
      then restore_owned live applied
      else ret (err (external_modification live.entry.resource), live)

  -- After a pending state was resolved: read again.
  after_resolving : Outcome D I → Tx D I (Outcome D I)
  after_resolving (err e, live) = ret (err e, live)
  after_resolving (ok u, live) =
      or_fail (λ e. (err e, live)) (readback live.entry.resource)
        λ current.
          if b.equivalent current live.entry.before
          then forget_and_fire live
          else restore_applied (applied_of live) live current

  resolve_first : LiveState D I → LiveRecord D I → PlatformSnapshot D → Tx D I (Outcome D I)
  resolve_first committed live current = restore_applied (applied_of live) live current
  resolve_first _ live current = do
    outcome ← resolve_live b live (some current)
    after_resolving outcome

  restore_current : LiveRecord D I → PlatformSnapshot D → Tx D I (Outcome D I)
  restore_current live current =
      or_fail (λ e. (err e, live)) (fire after_restore_readback)
        λ _.
          if b.equivalent current live.entry.before
          then forget_and_fire live
          else resolve_first live.state live current

  restore_same : LiveRecord D I → Fallible (PlatformSnapshot D) → Tx D I (Outcome D I)
  restore_same live (ok current) = restore_current live current
  restore_same live (err e) = if is_resource_gone e then forget live else ret (err e, live)

  restore_status : LiveRecord D I → ResourceStatus → Tx D I (Outcome D I)
  restore_status live gone = forget live
  restore_status live replaced = forget live
  restore_status live ambiguous = ret (err (resource_identity b.kind live.entry.resource), live)
  restore_status live same = do current ← readback live.entry.resource; restore_same live current

  pub restore_live_state : LiveRecord D I → Tx D I (Outcome D I)
  restore_live_state live =
      or_fail (λ e. (err e, live)) (status live.entry.identity) λ s. restore_status live s
