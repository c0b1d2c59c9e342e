-- ===== src/Engine/Update/Updated.antt =====
-- The whole update transaction.
use osdns.Prelude.{◌≡◌, refl, true, List, [], ◌∷◌, arith, Bool-cases, inl, inr}
use osdns.Error.{Error, Fallible, ok, err}
use osdns.Platform.{Backend, NormalizedConfig, VerifiedMutation}
use osdns.Tx.{
  History, Tx, ret, or_fail, fire, after_update_resolve, after_update_noop_check,
  after_update_prepared, after_update_applied,
}
use osdns.Tx.History.{journal_of}
use osdns.Tx.Logic.{Any, Oracle, Post, Safe, Safe-bind, Safe-or_fail}
use osdns.Engine.Monitor.{monitor}
use osdns.Engine.Live.{LiveRecord}
use osdns.Engine.Live.Synced.{shaped, quiet_if_ok, SyncedPost}
use osdns.Engine.Live.Resolved.{commit_verified-Safe}
use osdns.Engine.Update.{
  UpdateEntry, Stage, Updated, or_stop, lives_of, all_applied, check_all, commit_updates,
  first_error, finish_update, update_owned, update_resolved, transact_update,
}
use osdns.Engine.Update.Prepared.{
  AllPaired, AllShaped, EntriesAnnounced, lives_of-shaped, check_all-Safe, PreparedPost,
  prepare_from-Safe,
}
use osdns.Engine.Update.Settled.{FirstsPaired, MutatedPost, update_from-Safe}
use osdns.Engine.Update.Resolved.{UpdatePost, ResolvedPost, resolve_all-Safe}

module _ {D I : Type 0} (b : Backend D) (o : Oracle D I) where
  commit_updates-Safe :
      (done : List (UpdateEntry D I × VerifiedMutation D)) (h : History D I)
      → FirstsPaired done
      → Safe o (monitor b) UpdatePost (commit_updates b done) h
  unfolding commit_updates
  commit_updates-Safe [] h v = (tt, refl)
  commit_updates-Safe ((x, m) ∷ rest) h v =
      Safe-bind o (monitor b) SyncedPost UpdatePost _ _ h
        (commit_verified-Safe b o x.live m h (ground arith))
        λ g r p.
          Safe-bind o (monitor b) UpdatePost UpdatePost _ _ g (commit_updates-Safe rest g v.1)
            λ g' r' p'. joined g' r.0 r.1 r'.0 r'.1 p.0.shape p.1 p'
    where
      joined :
          (g : History D I) (r : Fallible (Unit {0})) (l : LiveRecord D I)
          (r' : Fallible (Unit {0})) (ls : List (LiveRecord D I))
          → shaped l.state l.entry ≡ true
          → quiet_if_ok r l.state ≡ true
          → UpdatePost g (r', ls)
          → UpdatePost g (first_error r r', l ∷ ls)
      joined g (err e) l r' ls s q p = ((s, p.0), refl)
      joined g (ok u) l (err e) ls s q p = ((s, p.0), refl)
      joined g (ok u) l (ok u') ls s q p = ((s, p.0), rw q p.1)

  finish_update-Safe :
      (r : Updated D I) (h : History D I)
      → UpdatePost h r
      → Safe o (monitor b) UpdatePost (finish_update b r) h
  unfolding finish_update
  finish_update-Safe (err e, ls) h p = p
  finish_update-Safe (ok u, ls) h p =
      Safe-or_fail o (monitor b) Any UpdatePost (λ e. (err e, ls)) (fire after_update_applied) _ h
        (refl, tt) (λ g u' _. p) (λ g e _. (p.0, refl))

  module _ {A : Type 0} where
    -- The rule for a stage.
    Safe-or_stop :
        (mid : Post D I (Stage D I A)) (m : Tx D I (Stage D I A)) (k : A → Tx D I (Updated D I))
        (h : History D I)
        → Safe o (monitor b) mid m h
        → ((g : History D I) (a : A) → mid g (ok a) → Safe o (monitor b) UpdatePost (k a) g)
        → ((g : History D I) (s : Error × List (LiveRecord D I)) → mid g (err s) → AllShaped s.1)
        → Safe o (monitor b) UpdatePost (or_stop m k) h
    Safe-or_stop mid m k h s good bad =
        Safe-bind o (monitor b) mid UpdatePost m _ h s (λ g r p. go g r p)
      where
        go :
            (g : History D I) (r : Stage D I A)
            → mid g r
            → Safe o (monitor b) UpdatePost (elim r [ ok a ↦ k a | err s ↦ ret (err s.0, s.1) ]) g
        go g (ok a) p = good g a p
        go g (err s) p = (bad g s p, refl)

  abbrev StillAnnounced : NormalizedConfig → List (UpdateEntry D I) → Post D I (Fallible (Unit {0}))
  StillAnnounced plan ys g r = EntriesAnnounced plan ys (journal_of g)

  update_owned-Safe :
      (plan : NormalizedConfig) (xs : List (UpdateEntry D I)) (h : History D I)
      → AllPaired xs
      → Safe o (monitor b) UpdatePost (update_owned b plan xs) h
  unfolding update_owned
  update_owned-Safe plan xs h v =
      Safe-or_stop (PreparedPost b o plan) _ _ h (prepare_from-Safe b o plan [] xs h tt tt tt v)
        (λ g ys p.
          Safe-or_fail o (monitor b) (StillAnnounced plan ys) UpdatePost (λ e. (err e, lives_of ys))
            (fire after_update_prepared) _ g (refl, p.2)
            (λ g' u a.
              Safe-or_stop (MutatedPost b o) _ _ g' (update_from-Safe b o plan [] ys g' tt p.0 a)
                (λ k done q.
                  Safe-bind o (monitor b) UpdatePost UpdatePost _ _ k (commit_updates-Safe done k q)
                    (λ k' r q'. finish_update-Safe r k' q'))
                (λ k s q. q))
            (λ g' e _. (lives_of-shaped ys p.1, refl)))
        (λ g s p. p)

  update_resolved-Safe :
      (plan : NormalizedConfig) (xs : List (UpdateEntry D I)) (h : History D I)
      → ResolvedPost h (ok xs)
      → Safe o (monitor b) UpdatePost (update_resolved b plan xs) h
  unfolding update_resolved
  update_resolved-Safe plan xs h v =
      Safe-or_fail o (monitor b) Any UpdatePost (λ e. (err e, lives_of xs)) (check_all b xs) _ h
        (check_all-Safe b o xs h)
        (λ g u _. elim (Bool-cases (all_applied b xs plan)) [
          | inl e ↦ rw e (unneeded g)
          | inr e ↦ rw e (update_owned-Safe plan xs g v.0)
        ])
        (λ g e _. (lives_of-shaped xs v.1, refl))
    where
      unneeded :
          (g : History D I)
          → Safe o
              (monitor b)
              UpdatePost
              (or_fail
                (λ e. (err e, lives_of xs))
                (fire after_update_noop_check)
                λ _. ret (ok tt, lives_of xs))
              g
      unneeded g =
          Safe-or_fail o (monitor b) Any UpdatePost (λ e. (err e, lives_of xs))
            (fire after_update_noop_check) (λ _. ret (ok tt, lives_of xs)) g (refl, tt)
            (λ g' u _. (lives_of-shaped xs v.1, v.2)) (λ g' e _. (lives_of-shaped xs v.1, refl))

  -- For live records that have the shape of their states, a whole update transaction obeys the
  -- monitor, whatever the world answers and whatever fails on the way: the plan is applied to a
  -- resource only while the journal announces it, and a restore is guarded by incarnation and
  -- ownership. The live records that come back have the shape of their states, after an error too,
  -- and after `Ok` each is `Committed` or `Unmutated`, so that no mutation and no publication is
  -- outstanding.
  pub transact_update-Safe :
      (ls : List (LiveRecord D I)) (plan : NormalizedConfig) (h : History D I)
      → AllShaped ls
      → Safe o (monitor b) UpdatePost (transact_update b ls plan) h
  unfolding transact_update
  transact_update-Safe ls plan h v =
      Safe-or_fail o (monitor b) Any UpdatePost (λ e. (err e, ls)) (fire after_update_resolve) _ h
        (refl, tt)
        (λ g u _.
          Safe-or_stop ResolvedPost _ _ g (resolve_all-Safe b o ls g v)
            (λ g' xs p. update_resolved-Safe plan xs g' p) (λ g' s p. p))
        (λ g e _. (v, refl))
