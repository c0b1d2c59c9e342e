-- ===== src/Lease/Remains.antt =====
-- What a lease that could not be ended still holds, and which locks are free after a sweep.
use mathlib.Core.Bool.{false≢true}
use osdns.Prelude.{
  ◌||◌, Bool-cases, inl, inr, ◌≡◌, refl, ap, subst, Bool, true, false, Option, none, some, List, [],
  ◌∷◌, ◌&&◌, not, All, arith,
}
use osdns.Text.{text_eq_refl}
use osdns.Error.{ResourceId, ok, err}
use osdns.Tx.{History}
use osdns.Tx.History.{same_resource, journal_of, locked}
use osdns.Tx.Logic.{Post}
use osdns.Engine.Confined.{among, is_cleared}
use osdns.Engine.Confined.Frames.{same_resource-eq}
use osdns.Engine.Live.{LiveRecord, resources_of}
use osdns.Lease.{LeasePhase, restoring, abandoning, LiveLease, Sweep, Ending, not_active}
use osdns.Ownership.Acquired.{AllReleasedPost}
use osdns.Lease.Swept.{all_in, IsHeld, NothingTaken, is_ended, AllKeptOrEnded}
use osdns.Lease.Swept.Collect.{IsSwept}

pub all_in-cons :
    (l : ResourceId) (locks rs : List ResourceId)
    → all_in locks rs ≡ true
    → all_in (l ∷ locks) rs ≡ true
all_in-cons l locks [] v = refl
all_in-cons l locks (r ∷ rs) v = ground (arith, all_in-cons l locks rs (ground arith))

all_in-among :
    (locks rs : List ResourceId) (r : ResourceId)
    → all_in locks rs ≡ true
    → (not (among rs r) || among locks r) ≡ true
all_in-among locks [] r v = refl
all_in-among locks (s ∷ rs) r v = elim (Bool-cases (same_resource s r)) [
  | inl e ↦ ground (arith, ap (among locks) (same_resource-eq s r e))
  | inr n ↦ ground (arith, all_in-among locks rs r (ground arith))
]

pub all_in_self : (locks : List ResourceId) → all_in locks locks ≡ true
all_in_self [] = refl
all_in_self (l ∷ locks) =
    ground (arith, text_eq_refl l.text, all_in-cons l locks locks (all_in_self locks))

module _ {D I : Type 0} where
  -- A lock is still the lease's, or free.
  abbrev pub all_accounted : List ResourceId → List ResourceId → History D I → Bool
  all_accounted [] left h = true
  all_accounted (r ∷ rs) left h = (among left r || not (locked r h)) && all_accounted rs left h

  -- What remains of a lease that could not be ended: records that still fit, under their locks.
  abbrev pub RemainsPost :
      LeasePhase → LiveLease D I → History D I → Option (LiveLease D I) → Type 0
  RemainsPost phase old g none = true ≡ false
  RemainsPost phase old g (some s) =
      IsHeld s.live s.locks g
      × (s.phase ≡ phase)
      × AllKeptOrEnded (resources_of old.live) s.live g
      × (all_accounted old.locks s.locks g ≡ true)

  abbrev pub WatchPost : History D I → Post D I (Unit {0})
  WatchPost h g u = ((s : ResourceId) → locked s g ≡ locked s h) × (journal_of g ≡ journal_of h)

  abbrev pub none_locked : List ResourceId → History D I → Bool
  none_locked [] h = true
  none_locked (r ∷ rs) h = not (locked r h) && none_locked rs h

  abbrev pub EndingPost : LeasePhase → LiveLease D I → History D I → Post D I (Ending D I)
  EndingPost phase s h g (ok u, lease) =
      NothingTaken h g
      × (lease.state ≡ none)
      × All (λ r. is_ended r g ≡ true) (resources_of s.live)
      × (none_locked s.locks g ≡ true)
  EndingPost phase s h g (err e, lease) = NothingTaken h g × RemainsPost phase s g lease.state

  -- An ended lease answers without a call.
  abbrev pub RestoreStatePost :
      List ResourceId → Option (LiveLease D I) → History D I → Post D I (Ending D I)
  RestoreStatePost resources none h g r = (g ≡ h) × (r.0 ≡ err (not_active resources))
  RestoreStatePost resources (some s) h g r = EndingPost restoring s h g r

  abbrev pub AbandonStatePost : Option (LiveLease D I) → History D I → Post D I (Ending D I)
  AbandonStatePost none h g r = (g ≡ h) × (r.0 ≡ ok tt)
  AbandonStatePost (some s) h g r = EndingPost abandoning s h g r

  abbrev pub StateHeld : Option (LiveLease D I) → History D I → Type 0
  StateHeld none h = Unit {0}
  StateHeld (some s) h = IsHeld s.live s.locks h

  -- All that was swept and released is ended.
  pub ended-All :
      (rs locks : List ResourceId) (h g : History D I)
      → AllKeptOrEnded rs [] h
      → AllReleasedPost locks h g tt
      → All (λ r. is_ended r g ≡ true) rs
  ended-All [] locks h g v p = tt
  ended-All (r ∷ rs) locks h g v p =
      (ground (arith, p.0 r, ap (is_cleared r) p.1), ended-All rs locks h g v.1 p)

  ended-among :
      (rs : List ResourceId) (r : ResourceId) (h : History D I)
      → All (λ r. is_ended r h ≡ true) rs
      → among rs r ≡ true
      → locked r h ≡ false
  ended-among [] r h v a = absurd (false≢true a)
  ended-among (s ∷ rs) r h v a = elim (Bool-cases (same_resource s r)) [
    | inl e ↦ subst (λ t. locked t h ≡ false) (same_resource-eq s r e) (ground (arith, v.0))
    | inr n ↦ ended-among rs r h v.1 (ground arith)
  ]

  -- Once all is swept and the rest is released, no lock of the lease is held.
  pub none_locked_after :
      (ls : List (LiveRecord D I)) (locks rs : List ResourceId) (h g k : History D I)
      (w : Sweep D I)
      → IsSwept ls locks h g w
      → All (λ r. is_ended r k ≡ true) (resources_of ls)
      → AllReleasedPost w.locks g k tt
      → all_in locks rs ≡ true
      → none_locked rs k ≡ true
  none_locked_after ls locks [] h g k w s v p a = refl
  none_locked_after ls locks (r ∷ rs) h g k w s v p a =
      elim (Bool-cases (among (resources_of ls) r)) [
        | inl e ↦ ground (
          arith,
          ended-among (resources_of ls) r k v e,
          none_locked_after ls locks rs h g k w s v p (ground arith),
        )
        | inr n ↦ ground (
          arith,
          s.outside r n,
          p.0 r,
          none_locked_after ls locks rs h g k w s v p (ground arith),
        )
      ]

  kept_among :
      (rs : List ResourceId) (r : ResourceId) (kept : List (LiveRecord D I)) (g : History D I)
      → AllKeptOrEnded rs kept g
      → among rs r ≡ true
      → (among (resources_of kept) r || not (locked r g)) ≡ true
  kept_among [] r kept g v a = absurd (false≢true a)
  kept_among (s ∷ rs) r kept g v a = elim (Bool-cases (same_resource s r)) [
    | inl e ↦
        subst (λ t. (among (resources_of kept) t || not (locked t g)) ≡ true)
          (same_resource-eq s r e) (ground (arith, v.0))
    | inr n ↦ kept_among rs r kept g v.1 (ground arith)
  ]

  -- The locks of a lease that could not be ended.
  pub accounted_after :
      (ls : List (LiveRecord D I)) (locks rs : List ResourceId) (h g k : History D I)
      (w : Sweep D I)
      → IsSwept ls locks h g w
      → WatchPost g k tt
      → all_in locks rs ≡ true
      → all_accounted rs w.locks k ≡ true
  accounted_after ls locks [] h g k w s p a = refl
  accounted_after ls locks (r ∷ rs) h g k w s p a = elim (Bool-cases (among (resources_of ls) r)) [
    | inl e ↦ ground (
      arith,
      p.0 r,
      kept_among (resources_of ls) r w.kept g s.verdicts e,
      all_in-among w.locks (resources_of w.kept) r s.still_held.listed,
      accounted_after ls locks rs h g k w s p (ground arith),
    )
    | inr n ↦ ground (arith, s.outside r n, accounted_after ls locks rs h g k w s p (ground arith))
  ]

  -- The watch does not matter to what a sweep left.
  pub AllKeptOrEnded-watched :
      (rs : List ResourceId) (kept : List (LiveRecord D I)) (h g : History D I)
      → WatchPost h g tt
      → AllKeptOrEnded rs kept h
      → AllKeptOrEnded rs kept g
  AllKeptOrEnded-watched [] kept h g p v = tt
  AllKeptOrEnded-watched (r ∷ rs) kept h g p v =
      (ground (arith, p.0 r, ap (is_cleared r) p.1), AllKeptOrEnded-watched rs kept h g p v.1)
