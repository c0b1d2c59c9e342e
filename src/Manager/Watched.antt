-- ===== src/Manager/Watched.antt =====
-- The last step of `DnsManager::apply`: the watch of the `Enforce` policy, and what happens without it.
use mathlib.Core.Bool.{false≢true}
use osdns.Platform.{Backend}
use osdns.Tx.{call_ensure_watch, call_rescan, History, ret, ask, ◌>>=◌}
use osdns.Tx.Logic.{Oracle, Post, Safe, Safe-bind}
use osdns.Manager.{unwatched, watch_lease}
use osdns.Lease.Swept.{all_in, IsHeld, NothingTaken}
use osdns.Prelude.{
  ◌≡◌, refl, sym, ap, true, false, Option, none, some, List, [], ◌∷◌, ◌||◌, not, arith, Bool-cases,
  inl, inr,
}
use osdns.Error.{ResourceId, Error, Fallible, ok, err}
use osdns.Tx.History.{locked, same_resource}
use osdns.Engine.Confined.{among, all_locked}
use osdns.Engine.Confined.Frames.{all_locked-same, same_resource-eq}
use osdns.Engine.Live.{resources_of}
use osdns.Engine.Rules.{rules}
use osdns.Lease.{active, restoring, LiveLease, Lease, Ending, restore_state}
use osdns.Lease.Ended.{restore_state-Safe}
use osdns.Lease.Remains.{EndingPost, RemainsPost, all_accounted, StateHeld, none_locked}
use osdns.Lease.Dropped.{StateFree, DropPost, drop_lease-Safe}

pub all_in_of :
    (locks rs qs : List ResourceId)
    → ((s : ResourceId) → among locks s ≡ among rs s)
    → all_in rs qs ≡ true
    → all_in locks qs ≡ true
all_in_of locks rs [] a v = refl
all_in_of locks rs (q ∷ qs) a v = ground (arith, a q, all_in_of locks rs qs a (ground arith))

module _ {D I : Type 0} where
  -- The lease holds its records under their locks, and no other lock was taken.
  abbrev pub MadePost : History D I → History D I → Lease D I → Option (LiveLease D I) → Type 0
  MadePost h g lease none = true ≡ false
  MadePost h g lease (some s) =
      IsHeld s.live s.locks g
      × (s.phase ≡ active)
      × (resources_of s.live ≡ lease.resources)
      × ((r : ResourceId) → (not (locked r g) || locked r h || among s.locks r) ≡ true)

  abbrev pub ApplyPost : History D I → Post D I (Fallible (Lease D I))
  ApplyPost h g (ok lease) = MadePost h g lease lease.state
  ApplyPost h g (err e) = NothingTaken h g

  -- The locks `rs` are held beside those of `h`.
  abbrev pub Beside : List ResourceId → History D I → History D I → Type 0
  Beside rs h g = (s : ResourceId) → locked s g ≡ (among rs s || locked s h)

  pub all_locked_of :
      (rs qs : List ResourceId) (h g : History D I)
      → Beside rs h g
      → all_in rs qs ≡ true
      → all_locked qs g ≡ true
  all_locked_of rs [] h g p v = refl
  all_locked_of rs (q ∷ qs) h g p v = ground (arith, p q, all_locked_of rs qs h g p (ground arith))

  free_among :
      (locks : List ResourceId) (s : ResourceId) (g : History D I)
      → none_locked locks g ≡ true
      → (not (among locks s) || not (locked s g)) ≡ true
  free_among [] s g v = refl
  free_among (l ∷ ls) s g v = elim (Bool-cases (same_resource l s)) [
    | inl e ↦ ground (arith, ap (λ t. locked t g) (same_resource-eq l s e))
    | inr n ↦ ground (arith, free_among ls s g (ground arith))
  ]

  -- Everything that was taken since `h` was given back.
  given_back :
      (locks : List ResourceId) (h g k : History D I)
      → Beside locks h g
      → NothingTaken g k
      → none_locked locks k ≡ true
      → NothingTaken h k
  given_back locks h g k p t n s = ground (arith, p s, t s, free_among locks s k n)

module _ {D I : Type 0} where
  remaining :
      (old : LiveLease D I) (state : Option (LiveLease D I)) (g : History D I)
      → RemainsPost restoring old g state
      → StateHeld state g
  remaining old none g v = tt
  remaining old (some s) g v = v.0

  -- The locks of the old lease are free when those of what remained of it are.
  freed :
      (rs left : List ResourceId) (g k : History D I)
      → all_accounted rs left g ≡ true
      → none_locked left k ≡ true
      → NothingTaken g k
      → none_locked rs k ≡ true
  freed [] left g k a v t = refl
  freed (r ∷ rs) left g k a v t =
      ground (arith, t r, free_among left r k v, freed rs left g k (ground arith) v t)

  remaining-freed :
      (old : LiveLease D I) (state : Option (LiveLease D I)) (g k : History D I)
      → RemainsPost restoring old g state
      → StateFree state k
      → NothingTaken g k
      → none_locked old.locks k ≡ true
  remaining-freed old none g k v f t = absurd (false≢true (sym v))
  remaining-freed old (some s) g k v f t = freed old.locks s.locks g k v.3 f t

module _ {D I : Type 0} (b : Backend D) (o : Oracle D I) where
  unwatched-Safe :
      (e : Error) (r : Ending D I) (s : LiveLease D I) (h g k : History D I)
      → Beside s.locks h g
      → EndingPost restoring s g k r
      → Safe o (rules b) (ApplyPost h) (unwatched b e r) k
  unfolding unwatched
  unwatched-Safe e (ok u, lease) s h g k p q = given_back s.locks h g k p q.0 q.3
  unwatched-Safe e (err f, lease) s h g k p q =
      Safe-bind o (rules b) (DropPost lease.state k) (ApplyPost h) _ _ k
        (drop_lease-Safe b o lease k (remaining s lease.state k q.1))
        (λ k' u w.
          given_back s.locks h g k' p (λ t. ground (arith, q.0 t, w.1 t))
            (remaining-freed s lease.state k k' q.1 w.0 w.1))

  pub made-Safe :
      (lease : Lease D I) (s : LiveLease D I) (h g : History D I)
      → Beside s.locks h g
      → IsHeld s.live s.locks g
      → s.phase ≡ active
      → resources_of s.live ≡ lease.resources
      → Safe o (rules b) (ApplyPost h) (watch_lease b (record lease { state = some s })) g
  unfolding watch_lease
  made-Safe lease s h g p v a r = (refl, go (o g call_ensure_watch))
    where
      held :
          (k : History D I) → ((t : ResourceId) → locked t k ≡ locked t g) → IsHeld s.live s.locks k
      held k same = record {
        fits = v.fits;
        differ = v.differ;
        listed = v.listed;
        held = all_locked-same (resources_of s.live) k g same v.held;
      }

      go :
          (reply : Fallible (Unit {0}))
          → Safe o
              (rules b)
              (ApplyPost h)
              (elim reply [
                | ok u ↦ ask call_rescan (λ _. ret (ok (record lease { state = some s })))
                | err e ↦ (restore_state b (record lease { state = some s }) >>= unwatched b e)
              ])
              (record { call = call_ensure_watch; reply = reply } ∷ g)
      go (ok u) = (refl, (held _ (λ t. refl), a, r, λ t. ground (arith, p t)))
      go (err e) =
          Safe-bind o (rules b)
            (EndingPost restoring s (record { call = call_ensure_watch; reply = err e } ∷ g))
            (ApplyPost h) _ _ (record { call = call_ensure_watch; reply = err e } ∷ g)
            (restore_state-Safe b o (record lease { state = some s }) _
              (held (record { call = call_ensure_watch; reply = err e } ∷ g) (λ t. refl)))
            (λ k x q.
              unwatched-Safe e x s h (record { call = call_ensure_watch; reply = err e } ∷ g) k p q)
