-- ===== src/Lease/Ended.antt =====
-- What `Lease::restore` and `Lease::abandon` establish.
use mathlib.Core.Bool.{false≢true}
use osdns.Prelude.{◌≡◌, refl, ◌∙◌, true, Option, none, some, List, [], ◌∷◌, arith}
use osdns.Error.{ResourceId, Error}
use osdns.Platform.{Backend}
use osdns.Tx.{History, Tx}
use osdns.Tx.History.{locked}
use osdns.Tx.Logic.{Oracle, Safe, Safe-bind}
use osdns.Engine.Confined.Frames.{all_locked-same}
use osdns.Engine.Live.{LiveRecord, Outcome, resource_of, resources_of}
use osdns.Engine.Restore.{restore_live_state}
use osdns.Engine.Rules.{rules}
use osdns.Lease.{
  LeasePhase, active, restoring, abandoning, LiveLease, Lease, release_watch_if, finish, end_lease,
  forget_record, abandon_taken, abandon_state, restore_taken, restore_state,
}
use osdns.Ownership.Acquired.{AllReleasedPost, release_all-Safe}
use osdns.Lease.Swept.{fit, IsHeld, SettledPost}
use osdns.Lease.Settled.{forget_record-Settled, restore_record-Settled}
use osdns.Lease.Swept.Collect.{IsSwept, sweep-IsSwept}
use osdns.Lease.Remains.{
  all_in_self, WatchPost, EndingPost, RestoreStatePost, AbandonStatePost, StateHeld, ended-All,
  none_locked_after, accounted_after, AllKeptOrEnded-watched,
}

module _ {D I : Type 0} (b : Backend D) (o : Oracle D I) where
  pub release_watch_if-Safe :
      (phase : LeasePhase) (h : History D I)
      → Safe o (rules b) (WatchPost h) (release_watch_if phase) h
  unfolding release_watch_if
  release_watch_if-Safe active h = (refl, ((λ s. refl), refl))
  release_watch_if-Safe restoring h = ((λ s. refl), refl)
  release_watch_if-Safe abandoning h = ((λ s. refl), refl)

  finish-Safe :
      (lease : Lease D I) (phase : LeasePhase) (s : LiveLease D I) (failure : Option Error)
      (kept : List (LiveRecord D I)) (locks : List ResourceId) (h g k : History D I)
      → IsSwept s.live s.locks h g (record { failure = failure; kept = kept; locks = locks })
      → WatchPost g k tt
      → Safe o
          (rules b)
          (EndingPost phase s h)
          (finish lease phase (record { failure = failure; kept = kept; locks = locks }))
          k
  unfolding finish
  finish-Safe lease phase s none [] locks h g k w p =
      Safe-bind o (rules b) (AllReleasedPost locks k) (EndingPost phase s h) _ _ k
        (release_all-Safe b o locks k)
        (λ k' u q.
          let r : AllReleasedPost locks g k' tt =
            ((λ s. ground (arith, q.0 s, p.0 s)), q.1 ∙ p.1) in
          let e = ended-All (resources_of s.live) locks g k' w.verdicts r in
          (
            (λ s. ground (arith, r.0 s, w.untaken s)),
            refl,
            e,
            none_locked_after s.live s.locks s.locks h g k' _ w e r (all_in_self s.locks),
          ))
  finish-Safe lease phase s none (l ∷ ls) locks h g k w p = absurd (false≢true w.failing)
  finish-Safe lease phase s (some e) kept locks h g k w p = (
    (λ s. ground (arith, p.0 s, w.untaken s)),
    (
      record {
        fits = w.still_held.fits;
        differ = w.still_held.differ;
        listed = w.still_held.listed;
        held = all_locked-same (resources_of kept) k g p.0 w.still_held.held;
      },
      refl,
      AllKeptOrEnded-watched (resources_of s.live) kept g k p w.verdicts,
      accounted_after s.live s.locks s.locks h g k _ w p (all_in_self s.locks),
    ),
  )

  end_lease-Safe :
      (settle : LiveRecord D I → Tx D I (Outcome D I)) (phase : LeasePhase) (lease : Lease D I)
      (s : LiveLease D I) (h : History D I)
      → ((l : LiveRecord D I) (g : History D I)
          → fit l ≡ true
          → locked (resource_of l) g ≡ true
          → Safe o (rules b) (SettledPost l g) (settle l) g)
      → IsHeld s.live s.locks h
      → Safe o (rules b) (EndingPost phase s h) (end_lease settle phase lease s) h
  unfolding end_lease
  end_lease-Safe settle phase lease s h settles v =
      Safe-bind o (rules b) (IsSwept s.live s.locks h) (EndingPost phase s h) _ _ h
        (sweep-IsSwept b o settle settles s.live s.locks h v)
        (λ g w q.
          Safe-bind o (rules b) (WatchPost g) (EndingPost phase s h) _ _ g
            (release_watch_if-Safe s.phase g)
            (λ k u p. finish-Safe lease phase s w.failure w.kept w.locks h g k q p))

  restore_taken-Safe :
      (lease : Lease D I) (state : Option (LiveLease D I)) (h : History D I)
      → StateHeld state h
      → Safe o (rules b) (RestoreStatePost lease.resources state h) (restore_taken b lease state) h
  unfolding restore_taken
  restore_taken-Safe lease none h v = (refl, refl)
  restore_taken-Safe lease (some s) h v =
      end_lease-Safe (restore_live_state b) restoring lease s h (restore_record-Settled b o) v

  abandon_taken-Safe :
      (lease : Lease D I) (state : Option (LiveLease D I)) (h : History D I)
      → StateHeld state h
      → Safe o (rules b) (AbandonStatePost state h) (abandon_taken lease state) h
  unfolding abandon_taken
  abandon_taken-Safe lease none h v = (refl, refl)
  abandon_taken-Safe lease (some s) h v =
      end_lease-Safe forget_record abandoning lease s h (forget_record-Settled b o) v

  -- For a lease that holds its records under their locks, `restore_state` obeys the rules, whatever
  -- the world answers: native state and journal records are touched only under the lock of their
  -- resource, and native state is restored only over a latest read that the evidence owns. After
  -- `Ok` the lease is empty, every resource has its journal record removed and its lock given back,
  -- and no lock of the lease is held. After an error the lease is `Restoring` and holds exactly
  -- records that still fit, under their locks, while every other resource is ended in that way and
  -- every other lock of the lease is free. No lock is taken. A lease that has ended asks nothing
  -- and answers `LeaseNotActive`, or an invalid configuration if it never had a resource.
  pub restore_state-Safe :
      (lease : Lease D I) (h : History D I)
      → StateHeld lease.state h
      → Safe o (rules b) (RestoreStatePost lease.resources lease.state h) (restore_state b lease) h
  unfolding restore_state
  restore_state-Safe lease h v = restore_taken-Safe lease lease.state h v

  -- For a lease that holds its records under their locks, `abandon_state` obeys the rules. After
  -- `Ok` the lease is empty, every resource has its journal record removed and its lock given back,
  -- and no lock of the lease is held. After an error the lease is `Abandoning` and holds exactly
  -- records that still fit, under their locks, while every other resource is ended in that way and
  -- every other lock of the lease is free. No lock is taken. A lease that has ended asks nothing
  -- and answers `Ok`.
  pub abandon_state-Safe :
      (lease : Lease D I) (h : History D I)
      → StateHeld lease.state h
      → Safe o (rules b) (AbandonStatePost lease.state h) (abandon_state lease) h
  unfolding abandon_state
  abandon_state-Safe lease h v = abandon_taken-Safe lease lease.state h v
