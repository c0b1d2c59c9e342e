-- ===== src/Lease/Update/Kept.antt =====
-- What `Lease::update` leaves of the lease.
use osdns.Prelude.{
  ◌≡◌, refl, sym, subst, Bool, true, false, Option, none, some, List, [], ◌∷◌, ◌&&◌, arith,
  Bool-cases, inl, inr,
}
use osdns.Text.{list_eq}
use osdns.Error.{ResourceId, Error, Fallible, ok, err, lease_ending, update_requires_rebind}
use osdns.Platform.{Backend, DnsScope, NormalizedConfig}
use osdns.Config.{Capabilities, DnsConfig, validate_against}
use osdns.Tx.{
  call_validate_plan, call_resolve_resources, call_is_active, History, ret, ask, or_fail, status,
}
use osdns.Tx.History.{same_resource}
use osdns.Tx.Logic.{Any, Oracle, Post, Safe, Safe-bind, Safe-or_fail}
use osdns.Engine.Monitor.{monitor}
use osdns.Engine.Live.{LiveRecord, resource_of, resources_of}
use osdns.Engine.Update.{Updated}
use osdns.Engine.Update.Prepared.{AllShaped}
use osdns.Engine.Update.Resolved.{UpdatePost, all_quiet}
use osdns.Engine.Update.Updated.{transact_update-Safe}
use osdns.Ownership.{sort}
use osdns.Lease.{LiveLease, Lease, Ending}
use osdns.Lease.Update.{
  is_active, any_unregistered, lock_tokens, unlock_tokens, checked_as, check_statuses, repacked,
  update_locked, update_wanted, update_registered, update_taken, update,
}

module _ {D I : Type 0} where
  abbrev done_quietly : Fallible (Unit {0}) → LiveLease D I → LiveLease D I → Bool
  done_quietly (err e) old s = true
  done_quietly (ok u) old s = is_active old.phase && all_quiet s.live

  abbrev pub KeptState : Fallible (Unit {0}) → LiveLease D I → Option (LiveLease D I) → Type 0
  KeptState r old none = true ≡ false
  KeptState r old (some s) =
      AllShaped s.live
      × (s.locks ≡ old.locks)
      × (s.phase ≡ old.phase)
      × (done_quietly r old s ≡ true)

  -- The lease before and after.
  abbrev pub KeptPost : Option (LiveLease D I) → Post D I (Ending D I)
  KeptPost none g (ok u, lease) = true ≡ false
  KeptPost none g (err e, lease) = lease.state ≡ none
  KeptPost (some old) g (r, lease) = KeptState r old lease.state

  abbrev pub StateShaped : Option (LiveLease D I) → Type 0
  StateShaped none = Unit {0}
  StateShaped (some s) = AllShaped s.live

  -- A refused update.
  unchanged :
      (lease : Lease D I) (s : LiveLease D I)
      → lease.state ≡ some s
      → AllShaped s.live
      → (e : Error) → KeptState (err e) s lease.state
  unchanged lease s t v e = subst (KeptState (err e) s) (sym t) (v, refl, refl, refl)

  refused :
      (lease : Lease D I) (state : Option (LiveLease D I)) (e : Error)
      → lease.state ≡ state
      → StateShaped state
      → (g : History D I) → KeptPost state g (err e, lease)
  refused lease none e t v g = t
  refused lease (some s) e t v g = unchanged lease s t v e

module _ {D I : Type 0} (b : Backend D) (o : Oracle D I) where
  any_unregistered-Any :
      (ls : List (LiveRecord D I)) (h : History D I)
      → Safe o (monitor b) Any (any_unregistered ls) h
  unfolding any_unregistered
  any_unregistered-Any [] h = tt
  any_unregistered-Any (l ∷ ls) h =
      (refl, go (o h (call_is_active (resource_of l))) (any_unregistered-Any ls))
    where
      go :
          (registered : Bool)
          → ((g : History D I) → Safe o (monitor b) Any (any_unregistered ls) g)
          → Safe o
              (monitor b)
              Any
              (elim registered [ true ↦ any_unregistered ls | false ↦ ret true ])
              (record { call = call_is_active (resource_of l); reply = registered } ∷ h)
      go true next = next _
      go false next = tt

  lock_tokens-Any :
      (rs : List ResourceId) (h : History D I) → Safe o (monitor b) Any (lock_tokens rs) h
  unfolding lock_tokens
  lock_tokens-Any [] h = tt
  lock_tokens-Any (r ∷ rs) h = (refl, lock_tokens-Any rs _)

  unlock_tokens-Any :
      (rs : List ResourceId) (h : History D I) → Safe o (monitor b) Any (unlock_tokens rs) h
  unfolding unlock_tokens
  unlock_tokens-Any [] h = tt
  unlock_tokens-Any (r ∷ rs) h = (refl, unlock_tokens-Any rs _)

  check_statuses-Any :
      (ls : List (LiveRecord D I)) (h : History D I)
      → Safe o (monitor b) Any (check_statuses b ls) h
  unfolding check_statuses
  check_statuses-Any [] h = tt
  check_statuses-Any (l ∷ ls) h =
      Safe-or_fail o (monitor b) Any Any (λ e. err e) (status l.entry.identity) _ h (refl, tt)
        (λ g s _. go (checked_as b (resource_of l) s) g (check_statuses-Any ls)) (λ g e _. tt)
    where
      go :
          (r : Fallible (Unit {0})) (g : History D I)
          → ((g : History D I) → Safe o (monitor b) Any (check_statuses b ls) g)
          → Safe o (monitor b) Any (elim r [ ok u ↦ check_statuses b ls | err e ↦ ret (err e) ]) g
      go (ok u) g next = next g
      go (err e) g next = tt

  update_locked-Safe :
      (lease : Lease D I) (s : LiveLease D I) (plan : NormalizedConfig) (owned : List ResourceId)
      (h : History D I)
      → AllShaped s.live
      → is_active s.phase ≡ true
      → Safe o (monitor b) (KeptPost (some s)) (update_locked b lease s plan owned) h
  unfolding update_locked
  update_locked-Safe lease s plan owned h v a =
      Safe-bind o (monitor b) Any (KeptPost (some s)) _ _ h (lock_tokens-Any owned h) (λ g u _.
        Safe-bind o (monitor b) UpdatePost (KeptPost (some s)) _ _ g
          (transact_update-Safe b o s.live plan g v)
          (λ g' r p.
            Safe-bind o (monitor b) Any (KeptPost (some s)) _ _ g' (unlock_tokens-Any owned g')
              (λ k u _. (refl, kept k r p))))
    where
      kept :
          (k : History D I) (r : Updated D I)
          → UpdatePost k r
          → KeptPost (some s) k (repacked lease s r)
      kept k (ok u, ls) p = (p.0, refl, refl, ground (arith, p.1))
      kept k (err e, ls) p = (p.0, refl, refl, refl)

  update_registered-Safe :
      (lease : Lease D I) (s : LiveLease D I) (scope : DnsScope) (plan : NormalizedConfig)
      (h : History D I)
      → lease.state ≡ some s
      → AllShaped s.live
      → is_active s.phase ≡ true
      → Safe o (monitor b) (KeptPost (some s)) (update_registered b lease s scope plan) h
  unfolding update_registered update_wanted
  update_registered-Safe lease s scope plan h t v a =
      Safe-or_fail o (monitor b) Any (KeptPost (some s)) (λ e. (err e, lease))
        (check_statuses b s.live) _ h (check_statuses-Any s.live h)
        (λ g u _.
          Safe-or_fail o (monitor b) Any (KeptPost (some s)) (λ e. (err e, lease))
            (ask (call_resolve_resources scope plan) ret) _ g (refl, tt)
            (λ g' wanted _.
              elim (Bool-cases (list_eq same_resource (sort wanted) (sort (resources_of s.live)))) [
                | inl e ↦ rw e (update_locked-Safe lease s plan (sort (resources_of s.live)) g' v a)
                | inr e ↦ rw e (
                    unchanged lease s t v
                      (update_requires_rebind (sort (resources_of s.live)) (sort wanted)))
              ])
            (λ g' e _. unchanged lease s t v e))
        (λ g e _. unchanged lease s t v e)

  update_taken-Safe :
      (lease : Lease D I) (state : Option (LiveLease D I)) (scope : DnsScope)
      (plan : NormalizedConfig) (h : History D I)
      → lease.state ≡ state
      → StateShaped state
      → Safe o (monitor b) (KeptPost state) (update_taken b lease state scope plan) h
  unfolding update_taken
  update_taken-Safe lease none scope plan h t v = t
  update_taken-Safe lease (some s) scope plan h t v = elim (Bool-cases (is_active s.phase)) [
    | inl a ↦ rw a (
        Safe-bind o (monitor b) Any (KeptPost (some s)) _ _ h (any_unregistered-Any s.live h)
          (λ g any _. go g any a))
    | inr n ↦ rw n (unchanged lease s t v lease_ending)
  ]
    where
      go :
          (g : History D I) (any : Bool)
          → is_active s.phase ≡ true
          → Safe o
              (monitor b)
              (KeptPost (some s))
              (elim any [
                | true ↦ ret (err lease_ending, lease)
                | false ↦ update_registered b lease s scope plan
              ])
              g
      go g true a = unchanged lease s t v lease_ending
      go g false a = update_registered-Safe lease s scope plan g t v a

  -- For a lease whose records have the shape of their states, `update` obeys the monitor whatever
  -- the world answers: a plan is applied only while the journal announces it, and a restore is
  -- guarded by incarnation and ownership. It never ends a lease, keeps its locks and its phase, and
  -- leaves records that have the shape of their states. `Ok` is given only to an `Active` lease, and
  -- then no mutation and no publication is outstanding. A lease that has ended is refused.
  pub update-KeptPost :
      (lease : Lease D I) (config : DnsConfig) (caps : Capabilities) (h : History D I)
      → StateShaped lease.state
      → Safe o (monitor b) (KeptPost lease.state) (update b lease config caps) h
  unfolding update
  update-KeptPost lease config caps h v = go (validate_against config caps)
    where
      go :
          (r : Fallible NormalizedConfig)
          → Safe o
              (monitor b)
              (KeptPost lease.state)
              (elim r [
                | err e ↦ ret (err e, lease)
                | ok plan ↦
                    or_fail
                      (λ e. (err e, lease))
                      (ask (call_validate_plan config.scope plan) ret)
                      λ _. update_taken b lease lease.state config.scope plan
              ])
              h
      go (err e) = refused lease lease.state e refl v h
      go (ok plan) =
          Safe-or_fail o (monitor b) Any (KeptPost lease.state) (λ e. (err e, lease))
            (ask (call_validate_plan config.scope plan) ret) _ h (refl, tt)
            (λ g u _. update_taken-Safe lease lease.state config.scope plan g refl v)
            (λ g e _. refused lease lease.state e refl v g)
