-- ===== src/Engine/Live.antt =====
-- lease.rs: `LiveRecord` and `LiveState`; manager.rs: the operations that publish a live record
-- (`persist_live`, `prepare_live`, `commit_verified`, `retain_compensation`, `resolve_live`).
-- A `&mut LiveRecord` is an argument and comes back beside the result.
pub mod Synced
pub mod Resolved
pub mod Committed
pub mod Confined
use osdns.Prelude.{Bool, true, false, Option, none, some, List, [], ◌∷◌, if◌then◌else◌, ◌&&◌}
use osdns.Error.{ResourceId, Error, ok, err, Fallible, external_modification}
use osdns.Platform.{PlatformSnapshot, is_same, Backend, VerifiedMutation, persist, owns_current}
use osdns.Journal.{Phase, applied, JournalRecord}
use osdns.Tx.{Tx, ret, ask, ◌>>=◌, ◌>>◌, or_fail, status, readback, write, unreachable}
use osdns.Engine.Compensate.{PendingRollback, Compensated, compensate}

pub data LiveState (D I : Type 0) : Type 0 where
  committed : LiveState D I
  unmutated : LiveState D I
  prepared : LiveState D I
  verified : VerifiedMutation D → LiveState D I
  compensating : PendingRollback D → JournalRecord D I → LiveState D I
  repair : LiveState D I → LiveState D I

pub record LiveRecord (D I : Type 0) : Type 0 where
  pub entry : JournalRecord D I
  pub state : LiveState D I

abbrev pub resource_of : {D I : Type 0} → LiveRecord D I → ResourceId
resource_of l = l.entry.resource

abbrev pub resources_of : {D I : Type 0} → List (LiveRecord D I) → List ResourceId
resources_of [] = []
resources_of (l ∷ ls) = resource_of l ∷ resources_of ls

-- What a fallible operation on a live record returns.
abbrev pub Outcome : Type 0 → Type 0 → Type 0
Outcome D I = Fallible (Unit {0}) × LiveRecord D I

module _ {D I : Type 0} where
  abbrev applied_in : LiveState D I → Option (PlatformSnapshot D) → Option (PlatformSnapshot D)
  applied_in committed s = s
  applied_in unmutated s = none
  applied_in prepared s = none
  applied_in (verified m) s = none
  applied_in (compensating p r) s = none
  applied_in (repair n) s = none

  -- `LiveRecord::applied`
  abbrev pub applied_of : LiveRecord D I → Option (PlatformSnapshot D)
  applied_of live = applied_in live.state live.entry.applied

  abbrev state_after : Phase → LiveState D I
  state_after applied = committed
  state_after Phase.prepared = unmutated

  pub persist_live : LiveRecord D I → JournalRecord D I → Tx D I (Outcome D I)
  persist_live live candidate = do
    r ← write candidate
    elim r [
      | ok u ↦ ret (ok tt, record { entry = candidate; state = state_after candidate.phase })
      | err e ↦
          ret (err e, record { entry = candidate; state = repair (state_after candidate.phase) })
    ]

  pub prepare_live : LiveRecord D I → JournalRecord D I → Tx D I (Outcome D I)
  prepare_live live candidate = do
    r ← write candidate
    elim r [
      | ok u ↦ ret (ok tt, record { entry = candidate; state = unmutated })
      | err e ↦ do
        again ← write live.entry
        elim again [
          | ok u ↦ ret (err e, live)
          | err e' ↦ ret (err e, record live { state = repair live.state })
        ]
    ]

  pub retain_compensation :
      LiveRecord D I → PendingRollback D → JournalRecord D I → Tx D I (Outcome D I)
  retain_compensation live p resume =
      let entry = record live.entry {
        phase = Phase.prepared;
        applied = p.evidence;
        desired = resume.desired;
      } in
      do
        r ← write entry
        elim r [
          | ok u ↦ ret (ok tt, record { entry = entry; state = compensating p resume })
          | err e ↦ ret (err e, record { entry = entry; state = repair (compensating p resume) })
        ]

  -- The resume record after compensation succeeded with `identity`.
  abbrev resumed_as : Phase → JournalRecord D I → Option (PlatformSnapshot D) → JournalRecord D I
  resumed_as applied resume (some s) = record resume { applied = some s }
  resumed_as applied resume none = record resume { applied = none; phase = Phase.prepared }
  resumed_as Phase.prepared resume identity = resume

module _ {D I : Type 0} (b : Backend D) where
  -- The branch of `resolve_live` for `Verified`, once the current state is known.
  commit_current : LiveRecord D I → VerifiedMutation D → PlatformSnapshot D → Tx D I (Outcome D I)
  commit_current live m current =
      or_fail (λ e. (err e, live)) (status live.entry.identity)
        λ s.
          if is_same s && owns_current b (persist m) current
          then (let candidate = record live.entry { phase = applied; applied = some (persist m) } in
              or_fail (λ e. (err e, live)) (write candidate)
                λ _. ret (ok tt, record { entry = candidate; state = committed }))
          else ret (err (external_modification live.entry.resource), live)

  current_or_read :
      LiveRecord D I → VerifiedMutation D → Option (PlatformSnapshot D) → Tx D I (Outcome D I)
  unfolding commit_current
  current_or_read live m (some current) = commit_current live m current
  current_or_read live m none =
      or_fail (λ e. (err e, live)) (readback live.entry.resource)
        λ current. commit_current live m current

  after_compensation : LiveRecord D I → JournalRecord D I → Compensated D → Tx D I (Outcome D I)
  unfolding persist_live retain_compensation
  after_compensation live resume (ok identity, p) =
      persist_live live (resumed_as resume.phase resume identity)
  after_compensation live resume (err e, p) = do
    (_, live') ← retain_compensation live p resume
    ret (err e, live')

  -- `match live.state.clone()`; the record is the one that holds that state.
  resolve_state :
      LiveState D I → LiveRecord D I → Option (PlatformSnapshot D) → Tx D I (Outcome D I)
  resolve_state committed live current = ret (ok tt, live)
  resolve_state unmutated live current = ret (ok tt, live)
  resolve_state prepared live current = ret (err (external_modification live.entry.resource), live)
  resolve_state (verified m) live current = current_or_read live m current
  resolve_state (compensating p resume) live current = do
    outcome ← compensate b live.entry.identity p none
    after_compensation live resume outcome
  resolve_state (repair next) live current = do unreachable; ret (ok tt, live)

  -- A journal repair comes first.
  resolve_from : LiveState D I → LiveRecord D I → Option (PlatformSnapshot D) → Tx D I (Outcome D I)
  resolve_from (repair next) live current =
      or_fail (λ e. (err e, live)) (write live.entry)
        λ _. resolve_state next (record live { state = next }) current
  resolve_from committed live current = resolve_state committed live current
  resolve_from unmutated live current = resolve_state unmutated live current
  resolve_from prepared live current = resolve_state prepared live current
  resolve_from (verified m) live current = resolve_state (verified m) live current
  resolve_from (compensating p resume) live current =
      resolve_state (compensating p resume) live current

  pub resolve_live : LiveRecord D I → Option (PlatformSnapshot D) → Tx D I (Outcome D I)
  resolve_live live current = resolve_from live.state live current

  pub commit_verified : LiveRecord D I → VerifiedMutation D → Tx D I (Outcome D I)
  commit_verified live m = resolve_live (record live { state = verified m }) none
