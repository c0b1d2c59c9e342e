-- ===== src/Ownership/Acquired.antt =====
-- What `acquire_all` leaves, and what giving the locks back leaves.
use osdns.Prelude.{
  ◌≡◌, refl, ◌∙◌, none, true, false, List, [], ◌∷◌, ◌++◌, ◌&&◌, ◌||◌, not, if◌then◌else◌, arith,
}
use osdns.Error.{ResourceId, Fallible, ok, err}
use osdns.Platform.{Backend}
use osdns.Tx.{call_acquire, call_release, History, ret, ◌>>=◌}
use osdns.Tx.History.{same_resource, journal_of, locked}
use osdns.Tx.Logic.{Oracle, Post, Safe, Safe-bind, Safe-mono, Safe-and, after}
use osdns.Engine.Confined.{among}
use osdns.Engine.Rules.{rules}
use osdns.Ownership.{release_all, acquire_each, acquire_all, dedup, sort}
use osdns.Ownership.Sorted.{locked_order-among, locked_order-ascending}
use osdns.Ownership.Ordered.{
  untouched, LockingPost, Locking-same, all_of_self, ascends-none, acquire_each-Locking,
}

module _ {D I : Type 0} where
  abbrev pub AllReleasedPost : List ResourceId → History D I → Post D I (Unit {0})
  AllReleasedPost locks h g u =
      ((s : ResourceId) → locked s g ≡ (if among locks s then false else locked s h))
      × (journal_of g ≡ journal_of h)

module _ {D I : Type 0} (b : Backend D) (o : Oracle D I) where
  pub release_all-Safe :
      (locks : List ResourceId) (h : History D I)
      → Safe o (rules b) (AllReleasedPost locks h) (release_all locks) h
  unfolding release_all
  release_all-Safe [] h = ((λ s. refl), refl)
  release_all-Safe (l ∷ ls) h = (
    refl,
    Safe-mono o (rules b) (AllReleasedPost ls (after o h (call_release l)))
        (AllReleasedPost (l ∷ ls) h) _ _ (release_all-Safe ls (after o h (call_release l)))
        (λ g u p. ((λ s. ground (arith, p.0 s)), p.1)),
  )

among-append :
    (rs ss : List ResourceId) (q : ResourceId) → among (rs ++ ss) q ≡ (among rs q || among ss q)
among-append [] ss q = refl
among-append (r ∷ rs) ss q = ground (arith, among-append rs ss q)

module _ {D I : Type 0} where
  -- The locks `rs` are taken beside `locks`, or none of either is held any more and no other lock
  -- was taken.
  abbrev EachPost :
      List ResourceId → List ResourceId → History D I → Post D I (Fallible (List ResourceId))
  EachPost locks rs h g (ok left) =
      ((s : ResourceId)
        → (among left s ≡ (among locks s || among rs s))
          × (locked s g ≡ (among rs s || locked s h)))
      × (journal_of g ≡ journal_of h)
  EachPost locks rs h g (err e) =
      ((s : ResourceId) → not (locked s g) || (locked s h && not (among locks s)) ≡ true)
      × (journal_of g ≡ journal_of h)

  abbrev pub AcquiredPost : List ResourceId → History D I → Post D I (Fallible (List ResourceId))
  AcquiredPost rs h g (ok locks) =
      ((s : ResourceId) → (among locks s ≡ among rs s) × (locked s g ≡ (among rs s || locked s h)))
      × (journal_of g ≡ journal_of h)
  AcquiredPost rs h g (err e) =
      ((s : ResourceId) → not (locked s g) || locked s h ≡ true) × (journal_of g ≡ journal_of h)

module _ {D I : Type 0} (b : Backend D) (o : Oracle D I) where
  acquire_each-Safe :
      (locks rs : List ResourceId) (h : History D I)
      → Safe o (rules b) (EachPost locks rs h) (acquire_each locks rs) h
  unfolding acquire_each
  acquire_each-Safe locks [] h = ((λ s. (ground arith, refl)), refl)
  acquire_each-Safe locks (r ∷ rs) h =
      (refl, go (o h (call_acquire r)) (λ g. acquire_each-Safe (locks ++ r ∷ []) rs g))
    where
      taken :
          (g k : History D I) (a : Fallible (List ResourceId))
          → ((s : ResourceId) → locked s g ≡ (same_resource r s || locked s h))
          → journal_of g ≡ journal_of h
          → EachPost (locks ++ r ∷ []) rs g k a
          → EachPost locks (r ∷ rs) h k a
      taken g k (ok left) v j p = (
        (λ s. (ground (arith, p.0 s, among-append locks (r ∷ []) s), ground (arith, p.0 s, v s))),
        p.1 ∙ j,
      )
      taken g k (err e) v j p =
          ((λ s. ground (arith, p.0 s, v s, among-append locks (r ∷ []) s)), p.1 ∙ j)

      go :
          (reply : Fallible (Unit {0}))
          → ((g : History D I)
              → Safe o
                  (rules b)
                  (EachPost (locks ++ r ∷ []) rs g)
                  (acquire_each (locks ++ r ∷ []) rs)
                  g)
          → Safe o
              (rules b)
              (EachPost locks (r ∷ rs) h)
              (elim reply [
                | ok u ↦ acquire_each (locks ++ r ∷ []) rs
                | err e ↦ (release_all locks >>= λ _. ret (err e))
              ])
              (record { call = call_acquire r; reply = reply } ∷ h)
      go (ok u) next =
          Safe-mono o (rules b)
            (EachPost (locks ++ r ∷ []) rs (record { call = call_acquire r; reply = ok u } ∷ h))
            (EachPost locks (r ∷ rs) h) _ _
            (next (record { call = call_acquire r; reply = ok u } ∷ h))
            (λ g a p.
              taken (record { call = call_acquire r; reply = ok u } ∷ h) g a (λ s. ground arith)
                refl p)
      go (err e) next =
          Safe-bind o (rules b)
            (AllReleasedPost locks (record { call = call_acquire r; reply = err e } ∷ h))
            (EachPost locks (r ∷ rs) h) _ _ (record { call = call_acquire r; reply = err e } ∷ h)
            (release_all-Safe b o locks (record { call = call_acquire r; reply = err e } ∷ h))
            (λ g u p. ((λ s. ground (arith, p.0 s)), p.1))

  acquired :
      (rs : List ResourceId) (h g : History D I) (a : Fallible (List ResourceId))
      → EachPost [] (dedup (sort rs)) h g a
      → AcquiredPost rs h g a
  acquired rs h g (ok locks) p = (
    (λ s. (
      ground (arith, p.0 s, locked_order-among rs s),
      ground (arith, p.0 s, locked_order-among rs s),
    )),
    p.1,
  )
  acquired rs h g (err e) p = ((λ s. ground (arith, p.0 s)), p.1)

  pub acquire_all-Acquired :
      (rs : List ResourceId) (h : History D I)
      → Safe o (rules b) (AcquiredPost rs h) (acquire_all rs) h
  unfolding acquire_all
  acquire_all-Acquired rs h =
      Safe-mono o (rules b) (EachPost [] (dedup (sort rs)) h) (AcquiredPost rs h) _ h
        (acquire_each-Safe [] (dedup (sort rs)) h) (λ g a p. acquired rs h g a p)

  acquire_all-Locking :
      (rs : List ResourceId) (h : History D I)
      → Safe o (rules b) (LockingPost (dedup (sort rs)) h) (acquire_all rs) h
  unfolding acquire_all
  acquire_all-Locking rs h =
      acquire_each-Locking b o (dedup (sort rs)) h [] (dedup (sort rs)) none h refl
        (all_of_self (dedup (sort rs))) (ascends-none (dedup (sort rs)) (locked_order-ascending rs))
        untouched

  -- Whatever the locks answer, `acquire_all` does nothing but ask for locks and release locks of
  -- the resources it was asked for, and it asks for the locks in strictly ascending order, whatever
  -- the order of the resources and however often one is named. After `Ok` the locks that it returns
  -- are those of the resources that were asked for, each is held, and every other lock is as it
  -- was. After an error no lock is held that was not held before. The journal is as it was.
  pub acquire_all-Safe :
      (rs : List ResourceId) (h : History D I)
      → Safe o (rules b) (λ g a. AcquiredPost rs h g a × LockingPost rs h g a) (acquire_all rs) h
  acquire_all-Safe rs h =
      Safe-and o (rules b) (AcquiredPost rs h) (LockingPost rs h) (acquire_all rs) h
        (acquire_all-Acquired rs h)
        (Safe-mono o (rules b) (LockingPost (dedup (sort rs)) h) (LockingPost rs h) (acquire_all rs)
          h (acquire_all-Locking rs h)
          (λ g a p. (p.0, Locking-same (dedup (sort rs)) rs h (locked_order-among rs) p.1)))
