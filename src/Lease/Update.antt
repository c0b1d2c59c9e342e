-- ===== src/Lease/Update.antt =====
-- lease.rs: `Lease::update` and `Lease::pending_durability`.
pub mod Kept
use osdns.Prelude.{
  ◌≡◌, Bool, true, false, not, ◌||◌, Option, none, some, List, [], ◌∷◌, ◌&&◌, if◌then◌else◌,
}
use osdns.Text.{list_eq}
use osdns.Error.{
  ResourceId, Error, Result, Fallible, ok, err, lease_ending, resource_gone, resource_identity,
  update_requires_rebind,
}
use osdns.Platform.{
  Backend, ResourceStatus, same, gone, replaced, ambiguous, DnsScope, NormalizedConfig,
}
use osdns.Config.{Capabilities, DnsConfig, validate_against}
use osdns.Tx.{
  call_validate_plan, call_resolve_resources, call_is_active, call_lock_token, call_unlock_token,
  call_rescan, Tx, ret, ask, ◌>>=◌, or_fail, status,
}
use osdns.Tx.History.{same_resource}
use osdns.Engine.Live.{LiveState, committed, LiveRecord, resource_of, resources_of}
use osdns.Engine.Update.{transact_update, Updated}
use osdns.Ownership.{sort}
use osdns.Lease.{LeasePhase, active, LiveLease, Lease, Ending, not_active}

abbrev is_active : LeasePhase → Bool
is_active active = true
is_active _ = false

abbrev checked_as : {D : Type 0} → Backend D → ResourceId → ResourceStatus → Fallible (Unit {0})
checked_as b r same = ok tt
checked_as b r gone = err (resource_gone b.kind r)
checked_as b r replaced = err (resource_identity b.kind r)
checked_as b r ambiguous = err (resource_identity b.kind r)

module _ {D I : Type 0} where
  abbrev is_committed : LiveState D I → Bool
  is_committed committed = true
  is_committed _ = false

  abbrev pending_of : List (LiveRecord D I) → List ResourceId
  pending_of [] = []
  pending_of (l ∷ ls) =
      if is_committed l.state then pending_of ls else resource_of l ∷ pending_of ls

  abbrev pending_in : Option (LiveLease D I) → List ResourceId
  pending_in none = []
  pending_in (some s) = sort (pending_of s.live)

  pub pending_durability : Lease D I → List ResourceId
  pending_durability lease = pending_in lease.state

  -- `state.live.iter().any(..)`: the first record that is not registered decides.
  any_unregistered : List (LiveRecord D I) → Tx D I Bool
  any_unregistered [] = ret false
  any_unregistered (l ∷ ls) =
      ask (call_is_active (resource_of l))
        λ registered. elim registered [ true ↦ any_unregistered ls | false ↦ ret true ]

  lock_tokens : List ResourceId → Tx D I (Unit {0})
  lock_tokens [] = ret tt
  lock_tokens (r ∷ rs) = ask (call_lock_token r) (λ _. lock_tokens rs)

  unlock_tokens : List ResourceId → Tx D I (Unit {0})
  unlock_tokens [] = ret tt
  unlock_tokens (r ∷ rs) = ask (call_unlock_token r) (λ _. unlock_tokens rs)

  -- `*guard = Some(repack(live))`
  abbrev repacked : Lease D I → LiveLease D I → Updated D I → Ending D I
  repacked lease s (r, ls) = (r, record lease { state = some (record s { live = ls }) })

module _ {D I : Type 0} (b : Backend D) where
  check_statuses : List (LiveRecord D I) → Tx D I (Fallible (Unit {0}))
  check_statuses [] = ret (ok tt)
  check_statuses (l ∷ ls) =
      or_fail (λ e. err e) (status l.entry.identity)
        λ s. elim (checked_as b (resource_of l) s) [
          | ok u ↦ check_statuses ls
          | err e ↦ ret (err e)
        ]

  -- Under the tokens of all resources.
  update_locked :
      Lease D I → LiveLease D I → NormalizedConfig → List ResourceId → Tx D I (Ending D I)
  update_locked lease s plan owned = lock_tokens owned >>= λ _.
      transact_update b s.live plan >>= λ result.
      unlock_tokens owned >>= λ _. ask call_rescan λ _. ret (repacked lease s result)

  update_wanted :
      Lease D I → LiveLease D I → NormalizedConfig → List ResourceId → Tx D I (Ending D I)
  update_wanted lease s plan wanted =
      let owned = sort (resources_of s.live) in
      if list_eq same_resource (sort wanted) owned
      then update_locked lease s plan owned
      else ret (err (update_requires_rebind owned (sort wanted)), lease)

  update_registered : Lease D I → LiveLease D I → DnsScope → NormalizedConfig → Tx D I (Ending D I)
  update_registered lease s scope plan =
      or_fail (λ e. (err e, lease)) (check_statuses s.live)
        λ _.
          or_fail (λ e. (err e, lease)) (ask (call_resolve_resources scope plan) ret)
            λ wanted. update_wanted lease s plan wanted

  update_taken :
      Lease D I → Option (LiveLease D I) → DnsScope → NormalizedConfig → Tx D I (Ending D I)
  update_taken lease none scope plan = ret (err (not_active lease.resources), lease)
  update_taken lease (some s) scope plan =
      if is_active s.phase
      then (any_unregistered s.live >>= λ any. elim any [
        | true ↦ ret (err lease_ending, lease)
        | false ↦ update_registered lease s scope plan
      ])
      else ret (err lease_ending, lease)

  pub update : Lease D I → DnsConfig → Capabilities → Tx D I (Ending D I)
  update lease config caps = elim (validate_against config caps) [
    | err e ↦ ret (err e, lease)
    | ok plan ↦
        or_fail (λ e. (err e, lease)) (ask (call_validate_plan config.scope plan) ret)
          λ _. update_taken lease lease.state config.scope plan
  ]
