-- ===== src/Manager/Seen.antt =====
-- What `DnsManager::apply` reads under its locks: the journal's records and the observations.
use mathlib.Core.Bool.{false≢true}
use osdns.Prelude.{
  ◌≡◌, refl, Bool, true, Option, none, some, List, [], ◌∷◌, ◌&&◌, All, arith, Bool-cases, inl, inr,
}
use osdns.Error.{ResourceId, Fallible, ok, err}
use osdns.Platform.{PlatformSnapshot, ResourceIdentity, BoundObservation}
use osdns.Journal.{JournalRecord}
use osdns.Tx.{History}
use osdns.Tx.History.{same_resource, locked}
use osdns.Tx.Logic.{Post}
use osdns.Engine.Live.{LiveRecord, resources_of}
use osdns.Engine.Live.Synced.{bound, shaped}
use osdns.Engine.Transact.{PreparedLease}
use osdns.Engine.Transact.Applied.{aligned}
use osdns.Engine.Transact.Owned.{AllOwn, observed_for}
use osdns.Lease.Swept.{AllFit}
use osdns.Manager.{init_of, last_of, close_gap, put_back, take_record}

-- What the world is trusted with: an observation is of the resource that was observed, and the
-- journal lists no record whose identity is of another resource.
abbrev pub observed_as : {D I : Type 0} → ResourceId → Fallible (BoundObservation D I) → Bool
observed_as r (ok seen) = same_resource seen.identity.resource r
observed_as r (err e) = true

module _ {D I : Type 0} where
  abbrev pub all_bound : List (JournalRecord D I) → Bool
  all_bound [] = true
  all_bound (x ∷ xs) = bound x && all_bound xs

  abbrev pub listed_bound : Fallible (List (JournalRecord D I)) → Bool
  listed_bound (ok xs) = all_bound xs
  listed_bound (err e) = true

  close_gap-bound :
      (x : JournalRecord D I) (xs : List (JournalRecord D I))
      → all_bound (x ∷ xs) ≡ true
      → (bound (last_of x xs) ≡ true) × (all_bound (init_of x xs) ≡ true)
  close_gap-bound x [] v = (ground arith, refl)
  close_gap-bound x (y ∷ ys) v =
      let rest = close_gap-bound y ys (ground arith) in (rest.0, ground (arith, rest.1))

  abbrev pub TakenBound :
      ResourceId → Option (JournalRecord D I × List (JournalRecord D I)) → Type 0
  TakenBound r none = Unit {0}
  TakenBound r (some (x, rest)) =
      (same_resource x.resource r && bound x ≡ true) × (all_bound rest ≡ true)

  gap_bound :
      (xs : List (JournalRecord D I)) → all_bound xs ≡ true → all_bound (close_gap xs) ≡ true
  gap_bound [] v = refl
  gap_bound (x ∷ xs) v = ground (arith, close_gap-bound x xs v)

  put_back-bound :
      (r : ResourceId) (y : JournalRecord D I)
      (t : Option (JournalRecord D I × List (JournalRecord D I)))
      → bound y ≡ true
      → TakenBound r t
      → TakenBound r (put_back y t)
  put_back-bound r y none v w = tt
  put_back-bound r y (some (x, rest)) v w = (w.0, ground (arith, w.1))

  pub take_record-bound :
      (r : ResourceId) (xs : List (JournalRecord D I))
      → all_bound xs ≡ true
      → TakenBound r (take_record r xs)
  unfolding take_record
  take_record-bound r [] v = tt
  take_record-bound r (x ∷ xs) v = elim (Bool-cases (same_resource x.resource r)) [
    | inl e ↦ rw e (ground (arith, e), gap_bound xs (ground arith))
    | inr n ↦ rw n (
        put_back-bound r x (take_record r xs) (ground arith)
          (take_record-bound r xs (ground arith)))
  ]

module _ {D I : Type 0} where
  -- The records of the lease fit and are of the resources, in their order.
  abbrev pub PreparedPost : List ResourceId → History D I → Post D I (Fallible (PreparedLease D I))
  PreparedPost rs h g (ok p) =
      ((s : ResourceId) → locked s g ≡ locked s h)
      × AllFit p.records
      × (resources_of p.records ≡ rs)
  PreparedPost rs h g (err e) = (s : ResourceId) → locked s g ≡ locked s h

  abbrev pub ListPost : History D I → Post D I (Fallible (List (JournalRecord D I)))
  ListPost h g (ok xs) = ((s : ResourceId) → locked s g ≡ locked s h) × (all_bound xs ≡ true)
  ListPost h g (err e) = (s : ResourceId) → locked s g ≡ locked s h

  abbrev pub ObservedPost :
      List ResourceId
      → History D I
      → Post D I (Fallible (List (PlatformSnapshot D) × List (ResourceIdentity I)))
  ObservedPost rs h g (ok t) =
      ((s : ResourceId) → locked s g ≡ locked s h) × (observed_for rs t.0 t.1 ≡ true)
  ObservedPost rs h g (err e) = (s : ResourceId) → locked s g ≡ locked s h

  pub observed-aligned :
      (rs : List ResourceId) (ss : List (PlatformSnapshot D)) (is : List (ResourceIdentity I))
      → observed_for rs ss is ≡ true
      → aligned rs is ≡ true
  observed-aligned [] ss is v = refl
  observed-aligned (r ∷ rs) [] is v = absurd (false≢true v)
  observed-aligned (r ∷ rs) (s ∷ ss) [] v = refl
  observed-aligned (r ∷ rs) (s ∷ ss) (i ∷ is) v =
      ground (arith, observed-aligned rs ss is (ground arith))

  pub all_fit :
      (ls : List (LiveRecord D I))
      → All (λ (l : LiveRecord D I). shaped l.state l.entry ≡ true) ls
      → AllOwn ls
      → AllFit ls
  all_fit [] v w = tt
  all_fit (l ∷ ls) v w = (ground arith, all_fit ls v.1 w.1)
