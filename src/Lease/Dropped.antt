-- ===== src/Lease/Dropped.antt =====
-- What dropping a lease, and making one, leave.
use osdns.Prelude.{ℕ, ◌≡◌, refl, ◌∙◌, Bool, true, Option, none, some, List, [], ◌∷◌, arith}
use osdns.Error.{ResourceId}
use osdns.Platform.{Backend}
use osdns.Tx.{call_lock_token, call_unlock_token, call_register, call_unregister, History}
use osdns.Tx.History.{locked}
use osdns.Tx.Logic.{Oracle, Post, Safe, Safe-bind, Safe-mono, after}
use osdns.Engine.Confined.{all_locked}
use osdns.Engine.Confined.Frames.{all_locked-same}
use osdns.Engine.Live.{LiveRecord, resource_of, resources_of}
use osdns.Engine.Rules.{rules}
use osdns.Ownership.Acquired.{AllReleasedPost, release_all-Safe}
use osdns.Lease.{
  LeasePhase, active, restoring, abandoning, LiveLease, Lease, register_all, new_owned, drop_record,
  drop_each, drop_taken, drop_lease,
}
use osdns.Lease.Swept.{fit, AllFit, SettledPost, all_in, NothingTaken}
use osdns.Lease.Settled.{forget_record-Settled, restore_record-Settled}
use osdns.Lease.Ended.{release_watch_if-Safe}
use osdns.Lease.Remains.{StateHeld, WatchPost, none_locked, all_in_self}

module _ {D I : Type 0} where
  abbrev pub SameLocks : {A : Type 0} → History D I → Post D I A
  SameLocks h g a = (s : ResourceId) → locked s g ≡ locked s h

  abbrev pub MadeLease :
      List (LiveRecord D I) → List ResourceId → History D I → Post D I (Lease D I)
  MadeLease ls locks h g lease =
      ((s : ResourceId) → locked s g ≡ locked s h)
      × (lease.state ≡ some (record { live = ls; locks = locks; phase = active }))
      × (lease.resources ≡ resources_of ls)

  abbrev pub StateFree : Option (LiveLease D I) → History D I → Type 0
  StateFree none g = Unit {0}
  StateFree (some s) g = none_locked s.locks g ≡ true

  abbrev pub DropPost : Option (LiveLease D I) → History D I → Post D I (Unit {0})
  DropPost state h g u = StateFree state g × NothingTaken h g

  none_locked_of :
      (rs locks : List ResourceId) (h g : History D I)
      → all_in locks rs ≡ true
      → AllReleasedPost locks h g tt
      → none_locked rs g ≡ true
  none_locked_of [] locks h g a p = refl
  none_locked_of (r ∷ rs) locks h g a p =
      ground (arith, p.0 r, none_locked_of rs locks h g (ground arith) p)

module _ {D I : Type 0} (b : Backend D) (o : Oracle D I) where
  register_all-Safe :
      (ls : List (LiveRecord D I)) (h : History D I)
      → Safe o (rules b) (SameLocks h) (register_all ls) h
  unfolding register_all
  register_all-Safe [] h = λ s. refl
  register_all-Safe (l ∷ ls) h = (
    refl,
    Safe-mono o (rules b) (SameLocks (after o h (call_register (resource_of l)))) (SameLocks h) _ _
        (register_all-Safe ls (after o h (call_register (resource_of l)))) (λ g u p. p),
  )

  -- A lease is made active with its records and locks.
  pub new_owned-Safe :
      (lease_id : ℕ) (ls : List (LiveRecord D I)) (locks : List ResourceId) (was_noop : Bool)
      (h : History D I)
      → Safe o (rules b) (MadeLease ls locks h) (new_owned lease_id ls locks was_noop) h
  unfolding new_owned
  new_owned-Safe lease_id ls locks was_noop h =
      Safe-bind o (rules b) (SameLocks h) (MadeLease ls locks h) _ _ h (register_all-Safe ls h)
        (λ g u w. (w, refl, refl))

  drop_record-Settled :
      (phase : LeasePhase) (l : LiveRecord D I) (h : History D I)
      → fit l ≡ true
      → locked (resource_of l) h ≡ true
      → Safe o (rules b) (SettledPost l h) (drop_record b phase l) h
  unfolding drop_record
  drop_record-Settled active l h f k = restore_record-Settled b o l h f k
  drop_record-Settled restoring l h f k = restore_record-Settled b o l h f k
  drop_record-Settled abandoning l h f k = forget_record-Settled b o l h f k

  drop_each-Safe :
      (phase : LeasePhase) (ls : List (LiveRecord D I)) (h : History D I)
      → AllFit ls
      → all_locked (resources_of ls) h ≡ true
      → Safe o (rules b) (SameLocks h) (drop_each b phase ls) h
  unfolding drop_each
  drop_each-Safe phase [] h f k = λ s. refl
  drop_each-Safe phase (l ∷ ls) h f k = (
    refl,
    Safe-bind o (rules b) (SettledPost l (after o h (call_lock_token (resource_of l))))
        (SameLocks h) _ _ (after o h (call_lock_token (resource_of l)))
        (drop_record-Settled phase l (after o h (call_lock_token (resource_of l))) f.0
          (ground arith))
        (λ g outcome p. (
          refl,
          (
            refl,
            Safe-mono o (rules b)
                (SameLocks (
                  after o (after o g (call_unregister (resource_of l)))
                    (call_unlock_token (resource_of l))))
                (SameLocks h) _ _
                (drop_each-Safe phase ls
                  (after o (after o g (call_unregister (resource_of l)))
                    (call_unlock_token (resource_of l)))
                  f.1 (all_locked-same (resources_of ls) _ h p.0 (ground arith)))
                (λ g' u q s. q s ∙ p.0 s),
          ),
        )),
  )

  drop_taken-Safe :
      (state : Option (LiveLease D I)) (h : History D I)
      → StateHeld state h
      → Safe o (rules b) (DropPost state h) (drop_taken b state) h
  unfolding drop_taken
  drop_taken-Safe none h v = (tt, λ s. ground arith)
  drop_taken-Safe (some s) h v =
      Safe-bind o (rules b) (SameLocks h) (DropPost (some s) h) _ _ h
        (drop_each-Safe s.phase s.live h v.fits v.held)
        (λ g u p.
          Safe-bind o (rules b) (AllReleasedPost s.locks g) (DropPost (some s) h) _ _ g
            (release_all-Safe b o s.locks g)
            (λ k u q.
              Safe-mono o (rules b) (WatchPost k) (DropPost (some s) h) _ k
                (release_watch_if-Safe b o s.phase k)
                (λ k' u w.
                  let r : AllReleasedPost s.locks g k' tt =
                    ((λ t. ground (arith, w.0 t, q.0 t)), w.1 ∙ q.1) in
                  (
                    none_locked_of s.locks s.locks g k' (all_in_self s.locks) r,
                    λ t. ground (arith, r.0 t, p t),
                  ))))

  -- For a lease that holds its records under their locks, or one that has ended, dropping it obeys
  -- the rules, whatever the world answers and whatever fails: native state and journal records are
  -- touched only under the lock of their resource, and native state is restored only over a latest
  -- read that the lease's evidence owns. Afterwards no lock of the lease is held, and no other was
  -- taken.
  pub drop_lease-Safe :
      (lease : Lease D I) (h : History D I)
      → StateHeld lease.state h
      → Safe o (rules b) (DropPost lease.state h) (drop_lease b lease) h
  unfolding drop_lease
  drop_lease-Safe lease h v = drop_taken-Safe lease.state h v
