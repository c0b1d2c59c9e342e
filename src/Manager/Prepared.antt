-- ===== src/Manager/Prepared.antt =====
-- `DnsManager::apply` while it holds the locks, up to the records of the lease.
use osdns.Prelude.{◌≡◌, refl, sym, subst, ◌∙◌, true, Option, none, some, List, [], ◌∷◌, arith}
use osdns.Text.{Text, text_eq_refl, text_eq_comm}
use osdns.Error.{ResourceId, Result, Fallible, ok, err}
use osdns.Platform.{PlatformSnapshot, ResourceIdentity, BoundObservation, Backend, NormalizedConfig}
use osdns.Journal.{JournalRecord}
use osdns.Tx.{
  after_lock, after_recovery, after_capture, after_noop_decision, call_observe, call_records,
  History, ret, ask, or_fail, fire, observe,
}
use osdns.Tx.History.{same_resource, locked}
use osdns.Tx.Logic.{Any, Oracle, Post, Safe, Safe-bind, Safe-mono, Safe-or_fail}
use osdns.Engine.Confined.{SealedPost, all_locked}
use osdns.Engine.Confined.Frames.{same_resource-eq, all_locked-same, Safe-sealed}
use osdns.Engine.Live.Synced.{bound}
use osdns.Engine.Recover.{RecoverBlock, recover_for_resource}
use osdns.Engine.Recover.Blocked.{UnblockedPost, recover_for_resource-Safe}
use osdns.Engine.Recover.Confined.{recover_for_resource-Confined}
use osdns.Engine.Rules.{rules, Safe-both}
use osdns.Engine.Transact.{PreparedLease, transact_with_locks}
use osdns.Engine.Transact.Applied.{LeasePost, transact_with_locks-Safe}
use osdns.Engine.Transact.Owned.{LeaseInPost, observed_for, all_among, transact_with_locks-Confined}
use osdns.Lease.Dropped.{SameLocks}
use osdns.Manager.Seen.{
  observed_as, all_bound, listed_bound, TakenBound, take_record-bound, PreparedPost, ListPost,
  ObservedPost, observed-aligned, all_fit,
}
use osdns.Manager.{
  take_record, recover_first, recover_each, observe_each, prepare_lease, block_error,
}

module _ {D I : Type 0} (b : Backend D) (o : Oracle D I) where
  observe_each-Safe :
      ((h : History D I) (r : ResourceId) → observed_as r (o h (call_observe r)) ≡ true)
      → (rs : List ResourceId) (h : History D I)
      → Safe o (rules b) (ObservedPost rs h) (observe_each rs) h
  unfolding observe_each
  observe_each-Safe honest [] h = ((λ s. refl), refl)
  observe_each-Safe honest (r ∷ rs) h =
      Safe-or_fail o (rules b) SeenPost (ObservedPost (r ∷ rs) h) (λ e. err e) (observe r) _ h
        (refl, seen (o h (call_observe r)) (honest h r))
        (λ g x p.
          Safe-or_fail o (rules b) (SameLocks h) (ObservedPost (r ∷ rs) h) (λ e. err e)
            (fire after_capture) _ g (refl, p.0)
            (λ g' u q.
              Safe-or_fail o (rules b) (ObservedPost rs g') (ObservedPost (r ∷ rs) h) (λ e. err e)
                (observe_each rs) _ g' (observe_each-Safe honest rs g')
                (λ k t w. ((λ s. w.0 s ∙ q s), ground (arith, p.1, w.1))) (λ k e w s. w s ∙ q s))
            (λ g' e q. q))
        (λ g e p. p)
    where
      SeenPost : Post D I (Fallible (BoundObservation D I))
      SeenPost g (ok x) =
          ((s : ResourceId) → locked s g ≡ locked s h)
          × (same_resource x.identity.resource r ≡ true)
      SeenPost g (err e) = (s : ResourceId) → locked s g ≡ locked s h

      seen :
          (reply : Fallible (BoundObservation D I))
          → observed_as r reply ≡ true
          → SeenPost (record { call = call_observe r; reply = reply } ∷ h) reply
      seen (ok x) v = ((λ s. refl), v)
      seen (err e) v = λ s. refl

all_among-cons :
    (q : ResourceId) (rs ss : List ResourceId)
    → all_among rs ss ≡ true
    → all_among (q ∷ rs) ss ≡ true
all_among-cons q rs [] v = refl
all_among-cons q rs (s ∷ ss) v = ground (arith, all_among-cons q rs ss (ground arith))

all_among_self : (rs : List ResourceId) → all_among rs rs ≡ true
all_among_self [] = refl
all_among_self (r ∷ rs) =
    ground (arith, text_eq_refl r.text, all_among-cons r rs rs (all_among_self rs))

module _ {D I : Type 0} (b : Backend D) (o : Oracle D I) (owner : Text) where
  -- Recovering one record under its lock.
  recover_one-Safe :
      (x : JournalRecord D I) (h : History D I)
      → bound x ≡ true
      → locked x.resource h ≡ true
      → Safe o (rules b) (SameLocks h) (recover_for_resource b owner x) h
  recover_one-Safe x h v k =
      Safe-mono o (rules b)
        (λ g r. UnblockedPost b owner x g r × SealedPost (x.resource ∷ []) h Any g r) (SameLocks h)
        _ h
        (Safe-both b o (UnblockedPost b owner x) (SealedPost (x.resource ∷ []) h Any)
          (recover_for_resource b owner x) h (recover_for_resource-Safe b o owner x h v)
          (Safe-sealed o (x.resource ∷ []) Any (recover_for_resource b owner x) h (ground arith) (
            recover_for_resource-Confined b o (x.resource ∷ []) x
              (ground (
                arith,
                text_eq_refl x.resource.text,
                text_eq_comm x.identity.resource.text x.resource.text,
              ))
              owner h)))
        (λ g r p. p.1.0)

  recover_first-Safe :
      (r : ResourceId) (t : Option (JournalRecord D I × List (JournalRecord D I)))
      (xs : List (JournalRecord D I)) (h : History D I)
      → TakenBound r t
      → all_bound xs ≡ true
      → locked r h ≡ true
      → Safe o (rules b) (ListPost h) (recover_first b owner r t xs) h
  recover_first-Safe r none xs h v w k = ((λ s. refl), w)
  recover_first-Safe r (some (x, rest)) xs h v w k =
      Safe-bind o (rules b) (SameLocks h) (ListPost h) _ _ h
        (recover_one-Safe x h (ground arith)
          (subst (λ q. locked q h ≡ true) (sym (same_resource-eq x.resource r (ground arith))) k))
        (λ g reply p. go g reply p)
    where
      go :
          (g : History D I) (reply : Result (Unit {0}) RecoverBlock)
          → ((s : ResourceId) → locked s g ≡ locked s h)
          → Safe o
              (rules b)
              (ListPost h)
              (elim reply [ ok u ↦ ret (ok rest) | err block ↦ ret (err (block_error r block)) ])
              g
      go g (ok u) p = (p, v.1)
      go g (err block) p = p

  recover_each-Safe :
      (xs : List (JournalRecord D I)) (rs : List ResourceId) (h : History D I)
      → all_bound xs ≡ true
      → all_locked rs h ≡ true
      → Safe o (rules b) (SameLocks h) (recover_each b owner xs rs) h
  unfolding recover_each
  recover_each-Safe xs [] h v k = λ s. refl
  recover_each-Safe xs (r ∷ rs) h v k =
      Safe-or_fail o (rules b) (ListPost h) (SameLocks h) (λ e. err e) _ _ h
        (recover_first-Safe r (take_record r xs) xs h (take_record-bound r xs v) v (ground arith))
        (λ g ys p.
          Safe-mono o (rules b) (SameLocks g) (SameLocks h) _ g
            (recover_each-Safe ys rs g p.1 (all_locked-same rs g h p.0 (ground arith)))
            (λ k' u q s. q s ∙ p.0 s))
        (λ g e p. p)

  -- The transaction, once everything is seen.
  transact-Safe :
      (rs : List ResourceId) (plan : NormalizedConfig) (ss : List (PlatformSnapshot D))
      (is : List (ResourceIdentity I)) (h : History D I)
      → observed_for rs ss is ≡ true
      → all_locked rs h ≡ true
      → Safe o (rules b) (PreparedPost rs h) (transact_with_locks b owner rs plan ss is) h
  transact-Safe rs plan ss is h v k =
      Safe-mono o (rules b) (λ g r. LeasePost g r × SealedPost rs h (LeaseInPost rs) g r)
        (PreparedPost rs h) _ h
        (Safe-both b o LeasePost (SealedPost rs h (LeaseInPost rs))
          (transact_with_locks b owner rs plan ss is) h
          (transact_with_locks-Safe b o plan owner rs ss is h (observed-aligned rs ss is v))
          (Safe-sealed o rs (LeaseInPost rs) (transact_with_locks b owner rs plan ss is) h k
            (transact_with_locks-Confined b o rs owner rs plan ss is h (all_among_self rs) v)))
        (λ g r p. prepared g r p.0 p.1)
    where
      prepared :
          (g : History D I) (r : Fallible (PreparedLease D I))
          → LeasePost g r
          → SealedPost rs h (LeaseInPost rs) g r
          → PreparedPost rs h g r
      prepared g (ok p) shape q = (q.0, all_fit p.records shape q.2.0, q.2.1)
      prepared g (err e) shape q = q.0

  pub prepare_lease-Safe :
      (rs : List ResourceId) (plan : NormalizedConfig) (h : History D I)
      → ((g : History D I) (r : ResourceId) → observed_as r (o g (call_observe r)) ≡ true)
      → ((g : History D I) → listed_bound (o g call_records) ≡ true)
      → all_locked rs h ≡ true
      → Safe o (rules b) (PreparedPost rs h) (prepare_lease b owner rs plan) h
  unfolding prepare_lease
  prepare_lease-Safe rs plan h observed listed k =
      Safe-or_fail o (rules b) (SameLocks h) (PreparedPost rs h) (λ e. err e) (fire after_lock) _ h
        (refl, λ s. refl)
        (λ g u p.
          Safe-or_fail o (rules b) (ListPost h) (PreparedPost rs h) (λ e. err e)
            (ask call_records ret) _ g (refl, list g p (o g call_records) (listed g))
            (λ g xs p.
              Safe-or_fail o (rules b) (SameLocks g) (PreparedPost rs h) (λ e. err e) _ _ g
                (recover_each-Safe xs rs g p.1 (all_locked-same rs g h p.0 k))
                (λ g' u q.
                  Safe-or_fail o (rules b) (SameLocks h) (PreparedPost rs h) (λ e. err e)
                    (fire after_recovery) _ g' (refl, λ s. q s ∙ p.0 s) (λ g u p. observing g p)
                    (λ g e p. p))
                (λ g' e q s. q s ∙ p.0 s))
            (λ g e p. p))
        (λ g e p. p)
    where
      list :
          (g : History D I)
          → ((s : ResourceId) → locked s g ≡ locked s h)
          → (r : Fallible (List (JournalRecord D I))) → listed_bound r ≡ true
          → ListPost h (record { call = call_records; reply = r } ∷ g) r
      list g p (ok xs) v = (p, v)
      list g p (err e) v = p

      observing :
          (g : History D I)
          → ((s : ResourceId) → locked s g ≡ locked s h)
          → Safe o
              (rules b)
              (PreparedPost rs h)
              (or_fail
                (λ e. err e)
                (observe_each rs)
                λ t.
                  or_fail
                    (λ e. err e)
                    (fire after_noop_decision)
                    λ _. transact_with_locks b owner rs plan t.0 t.1)
              g
      observing g p =
          Safe-or_fail o (rules b) (ObservedPost rs g) (PreparedPost rs h) (λ e. err e)
            (observe_each rs) _ g (observe_each-Safe b o observed rs g)
            (λ g' t q.
              Safe-or_fail o (rules b) (SameLocks h) (PreparedPost rs h) (λ e. err e)
                (fire after_noop_decision) _ g' (refl, λ s. q.0 s ∙ p s)
                (λ k' u w.
                  Safe-mono o (rules b) (PreparedPost rs k') (PreparedPost rs h) _ k'
                    (transact-Safe rs plan t.0 t.1 k' q.1 (all_locked-same rs k' h w k))
                    (λ k'' r z. onward k' k'' r w z))
                (λ k' e w. w))
            (λ g' e q s. q s ∙ p s)
        where
          onward :
              (g' g'' : History D I) (r : Fallible (PreparedLease D I))
              → ((s : ResourceId) → locked s g' ≡ locked s h)
              → PreparedPost rs g' g'' r
              → PreparedPost rs h g'' r
          onward g' g'' (ok p) w z = ((λ s. z.0 s ∙ w s), z.1, z.2)
          onward g' g'' (err e) w z = λ s. z s ∙ w s
