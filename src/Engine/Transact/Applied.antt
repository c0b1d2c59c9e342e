-- ===== src/Engine/Transact/Applied.antt =====
-- The whole apply transaction keeps the monitor's rules.
use mathlib.Core.Bool.{true≢false}
use osdns.Prelude.{ℕ, ◌≡◌, refl, Bool, true, false, List, [], ◌∷◌, map, ◌&&◌, All, arith}
use osdns.Text.{Text}
use osdns.Error.{ResourceId, Fallible, ok, err}
use osdns.Platform.{
  ResourceIdentity, PlatformSnapshot, Backend, VerifiedMutation, NormalizedConfig, plan_eq_refl,
}
use osdns.Journal.{JournalRecord}
use osdns.Tx.{
  History, ret, or_fail, ◌>>=◌, call_new_lease_id, call_fire, after_prepared, after_applied,
}
use osdns.Tx.History.{same_resource, journal_of}
use osdns.Tx.Logic.{Any, Oracle, Post, Safe, Safe-bind, Safe-or_fail}
use osdns.Engine.Monitor.{monitor}
use osdns.Engine.Live.{LiveRecord, committed}
use osdns.Engine.Live.Synced.{shaped}
use osdns.Engine.Transact.{
  PreparedLease, mutate_from, persist_unmutated, records_of, all_match, record_for, finish_lease,
  commit_all, transact_records, transact_with_locks,
}
use osdns.Engine.Transact.Announced.{
  Announced, Announcing, AllBound, PersistPost, persist_from-Safe, persist_from-Any,
}
use osdns.Engine.Transact.Mutated.{MutatedPost, mutate_from-Safe, CommittedPost, commit_each-Safe}

-- The identities name the resources they are listed with.
abbrev pub aligned : {I : Type 0} → List ResourceId → List (ResourceIdentity I) → Bool
aligned [] is = true
aligned (r ∷ rs) [] = true
aligned (r ∷ rs) (i ∷ is) = same_resource i.resource r && aligned rs is

-- The records of a lease that was made: each has the shape of its state.
abbrev pub LeasePost : {D I : Type 0} → Post D I (Fallible (PreparedLease D I))
LeasePost {D} {I} g (ok lease) =
    All (λ (l : LiveRecord D I). shaped l.state l.entry ≡ true) lease.records
LeasePost g (err e) = Unit {0}

module _ {D I : Type 0} (b : Backend D) (o : Oracle D I) (plan : NormalizedConfig) where
  finish_lease-Safe :
      (lease_id : ℕ) (r : Bool × List (LiveRecord D I)) (h : History D I)
      → CommittedPost b o plan h r
      → Safe o (monitor b) LeasePost (finish_lease b lease_id r) h
  unfolding finish_lease
  finish_lease-Safe lease_id (false, lives) h p = p
  finish_lease-Safe lease_id (true, lives) h p = (refl, go (o h (call_fire after_applied)))
    where
      go :
          (r : Fallible (Unit {0}))
          → Safe o
              (monitor b)
              LeasePost
              (elim r [
                | ok u ↦
                    ret (ok (record { lease_id = lease_id; records = lives; was_noop = false }))
                | err e ↦ ret (err e)
              ])
              (record { call = call_fire after_applied; reply = r } ∷ h)
      go (ok u) = p
      go (err e) = tt

  commit_all-Safe :
      (lease_id : ℕ) (r : Fallible (List (JournalRecord D I × VerifiedMutation D)))
      (h : History D I)
      → MutatedPost b o plan h r
      → Safe o (monitor b) LeasePost (commit_all b lease_id r) h
  unfolding commit_all
  commit_all-Safe lease_id (err e) h p = tt
  commit_all-Safe lease_id (ok done) h p =
      Safe-bind o (monitor b) (CommittedPost b o plan) LeasePost _ _ h
        (commit_each-Safe b o plan done h p) (λ g r p'. finish_lease-Safe lease_id r g p')

  -- What the records of a transaction have in common.
  Ready : Bool → List (JournalRecord D I) → Type 0
  Ready true xs = All (λ (x : JournalRecord D I). shaped committed x ≡ true) xs
  Ready false xs = Announcing plan xs × AllBound xs

  lives_shaped :
      (xs : List (JournalRecord D I))
      → All (λ (x : JournalRecord D I). shaped committed x ≡ true) xs
      → All
          (λ (l : LiveRecord D I). shaped l.state l.entry ≡ true)
          (map (λ x. record { entry = x; state = committed }) xs)
  lives_shaped [] h = tt
  lives_shaped (x ∷ xs) h = (h.0, lives_shaped xs h.1)

  transact_records-Safe :
      (lease_id : ℕ) (was_noop : Bool) (xs : List (JournalRecord D I)) (h : History D I)
      → Ready was_noop xs
      → ((was_noop ≡ false) → Announced plan xs (journal_of h))
      → Safe o (monitor b) LeasePost (transact_records b lease_id plan was_noop xs) h
  unfolding transact_records Ready
  transact_records-Safe lease_id true xs h p a = (refl, go (o h (call_fire after_applied)))
    where
      go :
          (r : Fallible (Unit {0}))
          → Safe o
              (monitor b)
              LeasePost
              (elim r [
                | ok u ↦ ret (
                    ok (record {
                      lease_id = lease_id;
                      records = map (λ x. record { entry = x; state = committed }) xs;
                      was_noop = true;
                    }))
                | err e ↦ ret (err e)
              ])
              (record { call = call_fire after_applied; reply = r } ∷ h)
      go (ok u) = lives_shaped xs p
      go (err e) = tt
  transact_records-Safe lease_id false xs h p a = (refl, go (o h (call_fire after_prepared)))
    where
      go :
          (r : Fallible (Unit {0}))
          → Safe o
              (monitor b)
              LeasePost
              (elim r [
                | ok u ↦ (mutate_from b plan [] xs >>= commit_all b lease_id)
                | err e ↦ ret (err e)
              ])
              (record { call = call_fire after_prepared; reply = r } ∷ h)
      go (ok u) =
          Safe-bind o (monitor b) (MutatedPost b o plan) LeasePost _ _ _
            (mutate_from-Safe b o plan [] xs _ tt p.1 (a refl))
            (λ g r q. commit_all-Safe lease_id r g q)
      go (err e) = tt

  records_of-Ready :
      (owner : Text) (lease_id : ℕ) (was_noop : Bool) (rs : List ResourceId)
      (ss : List (PlatformSnapshot D)) (is : List (ResourceIdentity I))
      → aligned rs is ≡ true
      → Ready was_noop (records_of (record_for b owner lease_id plan was_noop) rs ss is)
  unfolding Ready
  records_of-Ready owner lease_id true [] ss is h = tt
  records_of-Ready owner lease_id true (r ∷ rs) [] is h = tt
  records_of-Ready owner lease_id true (r ∷ rs) (s ∷ ss) [] h = tt
  records_of-Ready owner lease_id true (r ∷ rs) (s ∷ ss) (i ∷ is) h =
      (ground arith, records_of-Ready owner lease_id true rs ss is (ground arith))
  records_of-Ready owner lease_id false [] ss is h = (tt, tt)
  records_of-Ready owner lease_id false (r ∷ rs) [] is h = (tt, tt)
  records_of-Ready owner lease_id false (r ∷ rs) (s ∷ ss) [] h = (tt, tt)
  records_of-Ready owner lease_id false (r ∷ rs) (s ∷ ss) (i ∷ is) h =
      let rest = records_of-Ready owner lease_id false rs ss is (ground arith) in
      ((plan_eq_refl plan, rest.0), (ground arith, rest.1))

  -- The records are persisted, and then what they announce is done.
  persist_then-Safe :
      (lease_id : ℕ) (was_noop : Bool) (xs : List (JournalRecord D I)) (h : History D I)
      → Ready was_noop xs
      → Safe o
          (monitor b)
          LeasePost
          (or_fail
            (λ e. err e)
            (persist_unmutated xs)
            λ _. transact_records b lease_id plan was_noop xs)
          h
  unfolding persist_unmutated Ready
  persist_then-Safe lease_id true xs h p =
      Safe-or_fail o (monitor b) Any LeasePost (λ e. err e) _ _ h
        (persist_from-Any o (monitor b) [] xs h (λ g l r. refl) (λ g x. refl))
        (λ g u _. transact_records-Safe lease_id true xs g p (λ t. absurd (true≢false t)))
        (λ g e _. tt)
  persist_then-Safe lease_id false xs h p =
      Safe-or_fail o (monitor b) (PersistPost b o plan xs) LeasePost (λ e. err e) _ _ h
        (persist_from-Safe b o plan [] xs h p.0 p.1 tt)
        (λ g u q. transact_records-Safe lease_id false xs g p (λ _. q)) (λ g e _. tt)

  -- When the identities name their resources, a whole apply transaction obeys the monitor,
  -- whatever the world answers and whatever fails on the way: a plan is applied to a resource only
  -- while the journal announces that plan for it, a restore is guarded by incarnation and
  -- ownership, and no unreachable branch is reached. Each live record of a lease that is returned
  -- has the shape of its state.
  pub transact_with_locks-Safe :
      (owner : Text) (rs : List ResourceId) (ss : List (PlatformSnapshot D))
      (is : List (ResourceIdentity I)) (h : History D I)
      → aligned rs is ≡ true
      → Safe o (monitor b) LeasePost (transact_with_locks b owner rs plan ss is) h
  unfolding transact_with_locks
  transact_with_locks-Safe owner rs ss is h v = (
    refl,
    persist_then-Safe (o h call_new_lease_id) (all_match b ss plan) _ _
        (records_of-Ready owner (o h call_new_lease_id) (all_match b ss plan) rs ss is v),
  )
