-- ===== src/Lease/Locks.antt =====
-- Releasing the locks of a lease.
use osdns.Prelude.{
  ◌≡◌, refl, ap, ◌∙◌, false, List, [], ◌∷◌, if◌then◌else◌, arith, Bool-cases, inl, inr,
}
use osdns.Error.{ResourceId}
use osdns.Platform.{Backend}
use osdns.Tx.{call_release, History}
use osdns.Tx.History.{same_resource, journal_of, locked}
use osdns.Tx.Logic.{Oracle, Post, Safe, Safe-bind, Safe-mono, after}
use osdns.Engine.Confined.{among}
use osdns.Engine.Confined.Frames.{same_resource-eq}
use osdns.Engine.Rules.{rules}
use osdns.Lease.{release_matching}

module _ {D I : Type 0} where
  -- The locks of `r` are released and taken from the list, and nothing else changed.
  abbrev pub ReleasedPost : ResourceId → List ResourceId → History D I → Post D I (List ResourceId)
  ReleasedPost r locks h g left =
      ((s : ResourceId)
        → same_resource r s ≡ false
        → (locked s g ≡ locked s h) × (among left s ≡ among locks s))
      × (journal_of g ≡ journal_of h)
      × (locked r g ≡ (if among locks r then false else locked r h))

module _ {D I : Type 0} (b : Backend D) (o : Oracle D I) where
  pub release_matching-Safe :
      (r : ResourceId) (locks : List ResourceId) (h : History D I)
      → Safe o (rules b) (ReleasedPost r locks h) (release_matching r locks) h
  unfolding release_matching
  release_matching-Safe r [] h = ((λ s n. (refl, refl)), refl, refl)
  release_matching-Safe r (l ∷ ls) h = elim (Bool-cases (same_resource l r)) [
    | inl e ↦ rw e (
      refl,
      Safe-mono o (rules b) (ReleasedPost r ls (after o h (call_release l)))
          (ReleasedPost r (l ∷ ls) h) _ _ (release_matching-Safe r ls (after o h (call_release l)))
          (λ g left p. (
            (λ s n.
                let q : same_resource l s ≡ false =
                  ap (λ t. same_resource t s) (same_resource-eq l r e) ∙ n in
                (ground (arith, p.0 s n), ground (arith, p.0 s n))),
            p.1,
            ground (arith, p.2),
          )),
    )
    | inr e ↦ rw e (
        Safe-bind o (rules b) (ReleasedPost r ls h) (ReleasedPost r (l ∷ ls) h) _ _ h
          (release_matching-Safe r ls h)
          (λ g left p. (
            (λ s n. (ground (arith, p.0 s n), ground (arith, p.0 s n))),
            p.1,
            ground (arith, p.2),
          )))
  ]
