-- ===== src/Lease.antt =====
-- lease.rs: the life cycle of a lease. The `Mutex` around the state is taken for the whole of each
-- operation, so that a lease is its state before and after. `with_live_record` (reconciliation.rs)
-- runs its closure between taking and giving back the token of the resource.
pub mod Locks
pub mod Swept
pub mod Settled
pub mod Remains
pub mod Ended
pub mod Dropped
pub mod Update
use osdns.Prelude.{ℕ, Bool, true, false, Option, none, some, List, [], ◌∷◌, map, if◌then◌else◌}
use osdns.Error.{
  ResourceId, Error, Result, Fallible, ok, err, conflict, lease_not_active, invalid_config,
}
use osdns.Platform.{Backend}
use osdns.Ownership.{release_all}
use osdns.Tx.{
  call_lock_token, call_unlock_token, call_register, call_unregister, call_release,
  call_release_watch, Tx, ret, ask, ◌>>=◌, or_fail, remove,
}
use osdns.Tx.History.{same_resource}
use osdns.Engine.Live.{LiveRecord, Outcome, resource_of, resources_of}
use osdns.Engine.Restore.{restore_live_state}

pub data LeasePhase : Type 0 where
  active restoring abandoning : LeasePhase

-- `locks` names the locks that are held.
pub record LiveLease (D I : Type 0) : Type 0 where
  pub live : List (LiveRecord D I)
  pub locks : List ResourceId
  pub phase : LeasePhase

pub record Lease (D I : Type 0) : Type 0 where
  pub resources : List ResourceId
  pub lease_id : ℕ
  pub is_noop : Bool
  pub state : Option (LiveLease D I)

-- What a sweep over the live records keeps: the first error, the records and the locks.
pub record Sweep (D I : Type 0) : Type 0 where
  pub failure : Option Error
  pub kept : List (LiveRecord D I)
  pub locks : List ResourceId

-- What an operation on a lease returns, beside the lease.
abbrev pub Ending : Type 0 → Type 0 → Type 0
Ending D I = Fallible (Unit {0}) × Lease D I

abbrev pub not_active : List ResourceId → Error
not_active [] = invalid_config
not_active (r ∷ rs) = conflict r lease_not_active

module _ {D I : Type 0} where
  -- `_locks.retain(|lock| lock.resource() != &resource)`: a lock that is dropped is released.
  pub release_matching : ResourceId → List ResourceId → Tx D I (List ResourceId)
  release_matching r [] = ret []
  release_matching r (l ∷ ls) =
      let rest = release_matching r ls in
      if same_resource l r
      then ask (call_release l) (λ _. rest)
      else (rest >>= λ kept. ret (l ∷ kept))

  pub register_all : List (LiveRecord D I) → Tx D I (Unit {0})
  register_all [] = ret tt
  register_all (l ∷ ls) = ask (call_register (resource_of l)) (λ _. register_all ls)

  pub new_owned : ℕ → List (LiveRecord D I) → List ResourceId → Bool → Tx D I (Lease D I)
  new_owned lease_id records locks was_noop = register_all records >>= λ _. ret (record {
    resources = resources_of records;
    lease_id = lease_id;
    is_noop = was_noop;
    state = some (record { live = records; locks = locks; phase = active });
  })

  abbrev collect : Outcome D I → Sweep D I → Sweep D I
  collect (ok u, l) rest = rest
  collect (err e, l) rest = record { failure = some e; kept = l ∷ rest.kept; locks = rest.locks }

  abbrev release_if_ok :
      Fallible (Unit {0}) → ResourceId → List ResourceId → Tx D I (List ResourceId)
  release_if_ok (ok u) r locks = release_matching r locks
  release_if_ok (err e) r locks = ret locks

  -- The closure of `live.retain`.
  pub sweep_record :
      (LiveRecord D I → Tx D I (Outcome D I))
      → LiveRecord D I
      → List ResourceId
      → Tx D I (Outcome D I × List ResourceId)
  sweep_record settle l locks = ask (call_lock_token (resource_of l)) λ _.
      ask (call_unregister (resource_of l)) λ _. settle l >>= λ outcome.
      release_if_ok outcome.0 (resource_of l) locks >>= λ left.
      ask (call_unlock_token (resource_of l)) λ _. ret (outcome, left)

  -- `live.retain`, which keeps the records that could not be settled.
  pub sweep :
      (LiveRecord D I → Tx D I (Outcome D I))
      → List (LiveRecord D I)
      → List ResourceId
      → Tx D I (Sweep D I)
  sweep settle [] locks = ret (record { failure = none; kept = []; locks = locks })
  sweep settle (l ∷ ls) locks =
      sweep_record settle l locks >>= λ t. sweep settle ls t.1 >>= λ rest. ret (collect t.0 rest)

  -- `if matches!(phase, LeasePhase::Active) { release_enforce_watch() }`
  pub release_watch_if : LeasePhase → Tx D I (Unit {0})
  release_watch_if active = ask call_release_watch ret
  release_watch_if _ = ret tt

  pub finish : Lease D I → LeasePhase → Sweep D I → Tx D I (Ending D I)
  finish lease phase swept = elim swept.failure [
    | none ↦ (release_all swept.locks >>= λ _. ret (ok tt, record lease { state = none }))
    | some e ↦ ret (
      err e,
      record lease {
        state = some (record { live = swept.kept; locks = swept.locks; phase = phase });
      },
    )
  ]

  pub end_lease :
      (LiveRecord D I → Tx D I (Outcome D I))
      → LeasePhase
      → Lease D I
      → LiveLease D I
      → Tx D I (Ending D I)
  end_lease settle phase lease s = sweep settle s.live s.locks >>= λ swept.
      release_watch_if s.phase >>= λ _. finish lease phase swept

  -- `self.inner.journal.remove(..)` of the record.
  pub forget_record : LiveRecord D I → Tx D I (Outcome D I)
  forget_record l =
      or_fail (λ e. (err e, l)) (remove l.entry.lease_id l.entry.resource) λ _. ret (ok tt, l)

  abandon_taken : Lease D I → Option (LiveLease D I) → Tx D I (Ending D I)
  abandon_taken lease none = ret (ok tt, lease)
  abandon_taken lease (some s) = end_lease forget_record abandoning lease s

  pub abandon_state : Lease D I → Tx D I (Ending D I)
  abandon_state lease = abandon_taken lease lease.state

module _ {D I : Type 0} (b : Backend D) where
  restore_taken : Lease D I → Option (LiveLease D I) → Tx D I (Ending D I)
  restore_taken lease none = ret (err (not_active lease.resources), lease)
  restore_taken lease (some s) = end_lease (restore_live_state b) restoring lease s

  pub restore_state : Lease D I → Tx D I (Ending D I)
  restore_state lease = restore_taken lease lease.state

  drop_record : LeasePhase → LiveRecord D I → Tx D I (Outcome D I)
  drop_record abandoning l = forget_record l
  drop_record _ l = restore_live_state b l

  drop_each : LeasePhase → List (LiveRecord D I) → Tx D I (Unit {0})
  drop_each phase [] = ret tt
  drop_each phase (l ∷ ls) = ask (call_lock_token (resource_of l)) λ _.
      drop_record phase l >>= λ ignored.
      ask (call_unregister (resource_of l))
        λ _. ask (call_unlock_token (resource_of l)) λ _. drop_each phase ls

  drop_taken : Option (LiveLease D I) → Tx D I (Unit {0})
  drop_taken none = ret tt
  drop_taken (some s) =
      drop_each s.phase s.live >>= λ _. release_all s.locks >>= λ _. release_watch_if s.phase

  pub drop_lease : Lease D I → Tx D I (Unit {0})
  drop_lease lease = drop_taken lease.state
