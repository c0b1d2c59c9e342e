-- ===== src/Engine/Transact/Owned.antt =====
-- Each record of a lease that `transact_with_locks` makes is about its own resource alone, and the
-- records are of the resources that were asked for, in their order.
use mathlib.Core.Bool.{false≢true}
use osdns.Prelude.{
  ℕ, ◌≡◌, refl, sym, ap, subst, ◌∙◌, Bool, true, false, List, [], ◌∷◌, map, ◌&&◌, All, arith,
}
use osdns.Text.{Text, text_eq_refl, text_eq_comm}
use osdns.Error.{ResourceId, Fallible, ok, err}
use osdns.Platform.{ResourceIdentity, PlatformSnapshot, Backend, VerifiedMutation, NormalizedConfig}
use osdns.Journal.{JournalRecord}
use osdns.Tx.{call_new_lease_id, after_prepared, after_applied, History, fire}
use osdns.Tx.Logic.{Any, Oracle, Post, Safe, Safe-bind, Safe-or_fail}
use osdns.Engine.Live.{LiveRecord, committed, prepared, resource_of, resources_of}
use osdns.Engine.Live.Confined.{LiveInPost, commit_verified-Confined}
use osdns.Engine.Transact.Confined.{
  entries_of, targets, AllCovered, DoneCovered, DonePost, persist_from-Confined,
  mutate_from-Confined,
}
use osdns.Engine.Transact.{
  PreparedLease, persist_unmutated, records_of, record_for, all_match, commit_each, finish_lease,
  commit_all, transact_records, transact_with_locks,
}
use osdns.Engine.Confined.Frames.{Safe-among, live_in-resource, same_resource-eq}
use osdns.Tx.History.{same_resource}
use osdns.Engine.Confined.{among, confined, live_in}

abbrev pub all_among : List ResourceId → List ResourceId → Bool
all_among rs [] = true
all_among rs (q ∷ qs) = among rs q && all_among rs qs

module _ {D I : Type 0} where
  abbrev pub AllOwn : List (LiveRecord D I) → Type 0
  AllOwn ls = All (λ (l : LiveRecord D I). live_in (resource_of l ∷ []) l.state l.entry ≡ true) ls

  abbrev CommittedPost : List ResourceId → Post D I (Bool × List (LiveRecord D I))
  CommittedPost qs g r = AllOwn r.1 × (resources_of r.1 ≡ qs)

  -- The records of a lease that was made.
  abbrev pub LeaseInPost : List ResourceId → Post D I (Fallible (PreparedLease D I))
  LeaseInPost qs g (ok lease) = AllOwn lease.records × (resources_of lease.records ≡ qs)
  LeaseInPost qs g (err e) = Unit {0}

  -- There is an observation for each resource, and its identity is of that resource.
  abbrev pub observed_for :
      List ResourceId → List (PlatformSnapshot D) → List (ResourceIdentity I) → Bool
  observed_for [] [] [] = true
  observed_for (q ∷ qs) (s ∷ ss) (i ∷ is) = same_resource i.resource q && observed_for qs ss is
  observed_for _ _ _ = false

  own-resource :
      (r : ResourceId) (l : LiveRecord D I)
      → live_in (r ∷ []) l.state l.entry ≡ true
      → (live_in (resource_of l ∷ []) l.state l.entry ≡ true) × (resource_of l ≡ r)
  own-resource r l v =
      let e = live_in-resource r l v in
      (subst (λ t. live_in (t ∷ []) l.state l.entry ≡ true) e v, sym e)

module _ {D I : Type 0} (b : Backend D) (o : Oracle D I) (rs : List ResourceId) where
  commit_each-Confined :
      (done : List (JournalRecord D I × VerifiedMutation D)) (h : History D I)
      → DoneCovered rs done
      → Safe o (confined rs) (CommittedPost (targets done)) (commit_each b done) h
  unfolding commit_each
  commit_each-Confined [] h d = (tt, refl)
  commit_each-Confined ((x, m) ∷ rest) h d =
      Safe-bind o (confined rs) (LiveInPost (x.resource ∷ []))
        (CommittedPost (x.resource ∷ targets rest)) _ _ h
        (Safe-among o rs x.resource (LiveInPost (x.resource ∷ [])) _ h (ground arith) (
          commit_verified-Confined b o (x.resource ∷ []) (record { entry = x; state = prepared }) m
            h (ground arith)))
        λ g r p.
          Safe-bind o (confined rs) (CommittedPost (targets rest))
            (CommittedPost (x.resource ∷ targets rest)) _ _ g (commit_each-Confined rest g d.1)
            (λ g' r' q. let e = own-resource x.resource r.1 p in ((e.0, q.0), λ i. e.1 i ∷ q.1 i))

  finish_lease-Confined :
      (qs : List ResourceId) (lease_id : ℕ) (r : Bool × List (LiveRecord D I)) (h : History D I)
      → CommittedPost qs h r
      → Safe o (confined rs) (LeaseInPost qs) (finish_lease b lease_id r) h
  unfolding finish_lease
  finish_lease-Confined qs lease_id (false, lives) h p = p
  finish_lease-Confined qs lease_id (true, lives) h p =
      Safe-or_fail o (confined rs) Any (LeaseInPost qs) (λ e. err e) (fire after_applied) _ h
        (refl, tt) (λ g u _. p) (λ g e _. tt)

  commit_all-Confined :
      (qs : List ResourceId) (lease_id : ℕ)
      (r : Fallible (List (JournalRecord D I × VerifiedMutation D))) (h : History D I)
      → DonePost rs qs h r
      → Safe o (confined rs) (LeaseInPost qs) (commit_all b lease_id r) h
  unfolding commit_all
  commit_all-Confined qs lease_id (err e) h p = tt
  commit_all-Confined qs lease_id (ok done) h p =
      Safe-bind o (confined rs) (CommittedPost (targets done)) (LeaseInPost qs) _ _ h
        (commit_each-Confined done h p.0)
        (λ g r q. finish_lease-Confined qs lease_id r g (q.0, q.1 ∙ p.1))

  lives_in :
      (xs : List (JournalRecord D I))
      → AllCovered rs xs
      → AllOwn (map (λ x. record { entry = x; state = committed }) xs)
        × (resources_of (map (λ x. record { entry = x; state = committed }) xs) ≡ entries_of xs)
  lives_in [] v = (tt, refl)
  lives_in (x ∷ xs) v =
      let rest = lives_in xs v.1 in ((ground arith, rest.0), λ i. x.resource ∷ rest.1 i)

  transact_records-Confined :
      (lease_id : ℕ) (plan : NormalizedConfig) (was_noop : Bool) (xs : List (JournalRecord D I))
      (h : History D I)
      → AllCovered rs xs
      → Safe o
          (confined rs)
          (LeaseInPost (entries_of xs))
          (transact_records b lease_id plan was_noop xs)
          h
  unfolding transact_records
  transact_records-Confined lease_id plan true xs h v =
      Safe-or_fail o (confined rs) Any (LeaseInPost (entries_of xs)) (λ e. err e)
        (fire after_applied) _ h (refl, tt) (λ g u _. lives_in xs v) (λ g e _. tt)
  transact_records-Confined lease_id plan false xs h v =
      Safe-or_fail o (confined rs) Any (LeaseInPost (entries_of xs)) (λ e. err e)
        (fire after_prepared) _ h (refl, tt)
        (λ g u _.
          Safe-bind o (confined rs) (DonePost rs (entries_of xs)) (LeaseInPost (entries_of xs)) _ _
            g (mutate_from-Confined b o rs plan [] xs g tt v)
            (λ g' r p. commit_all-Confined (entries_of xs) lease_id r g' p))
        (λ g e _. tt)

  records_of-covered :
      (owner : Text) (lease_id : ℕ) (plan : NormalizedConfig) (was_noop : Bool)
      (qs : List ResourceId) (ss : List (PlatformSnapshot D)) (is : List (ResourceIdentity I))
      → all_among rs qs ≡ true
      → observed_for qs ss is ≡ true
      → AllCovered rs (records_of (record_for b owner lease_id plan was_noop) qs ss is)
        × (entries_of (records_of (record_for b owner lease_id plan was_noop) qs ss is) ≡ qs)
  records_of-covered owner lease_id plan was_noop [] [] [] v w = (tt, refl)
  records_of-covered owner lease_id plan was_noop [] [] (i ∷ is) v w = absurd (false≢true w)
  records_of-covered owner lease_id plan was_noop [] (s ∷ ss) is v w = absurd (false≢true w)
  records_of-covered owner lease_id plan was_noop (q ∷ qs) [] is v w = absurd (false≢true w)
  records_of-covered owner lease_id plan was_noop (q ∷ qs) (s ∷ ss) [] v w = absurd (false≢true w)
  records_of-covered owner lease_id plan was_noop (q ∷ qs) (s ∷ ss) (i ∷ is) v w =
      let rest =
        records_of-covered owner lease_id plan was_noop qs ss is (ground arith) (ground arith) in
      (
        (
          ground (
            arith,
            text_eq_refl q.text,
            text_eq_comm i.resource.text q.text,
            ap (among rs) (same_resource-eq i.resource q (ground arith)),
          ),
          rest.0,
        ),
        λ i. q ∷ rest.1 i,
      )

  pub transact_with_locks-Confined :
      (owner : Text) (qs : List ResourceId) (plan : NormalizedConfig)
      (ss : List (PlatformSnapshot D)) (is : List (ResourceIdentity I)) (h : History D I)
      → all_among rs qs ≡ true
      → observed_for qs ss is ≡ true
      → Safe o (confined rs) (LeaseInPost qs) (transact_with_locks b owner qs plan ss is) h
  unfolding transact_with_locks persist_unmutated
  transact_with_locks-Confined owner qs plan ss is h v w = (
    refl,
    Safe-or_fail o (confined rs) Any (LeaseInPost qs) (λ e. err e) _ _ _
        (persist_from-Confined b o rs [] _ _ tt (covered (o h call_new_lease_id)).0)
        (λ g u _.
          subst
            (λ qs'.
              Safe o (confined rs) (LeaseInPost qs')
                (transact_records b (o h call_new_lease_id) plan (all_match b ss plan) (
                  records_of (record_for b owner (o h call_new_lease_id) plan (all_match b ss plan))
                    qs ss is))
                g)
            (covered (o h call_new_lease_id)).1
            (transact_records-Confined _ plan (all_match b ss plan) _ g
              (covered (o h call_new_lease_id)).0))
        (λ g e _. tt),
  )
    where
      covered :
          (lease_id : ℕ)
          → AllCovered rs
              (records_of (record_for b owner lease_id plan (all_match b ss plan)) qs ss is)
            × (entries_of
                  (records_of (record_for b owner lease_id plan (all_match b ss plan)) qs ss is)
                ≡ qs)
      covered lease_id = records_of-covered owner lease_id plan (all_match b ss plan) qs ss is v w
