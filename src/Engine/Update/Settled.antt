-- ===== src/Engine/Update/Settled.antt =====
-- The mutation loop of the update transaction and what it does when a resource fails.
use osdns.Prelude.{
  ◌≡◌, refl, sym, subst, true, none, some, List, [], ◌∷◌, ◌++◌, map, All, All-append, arith,
}
use osdns.Error.{Error, Result, ok, err}
use osdns.Platform.{Backend, NormalizedConfig, VerifiedMutation, persist}
use osdns.Tx.{History}
use osdns.Tx.History.{journal_of}
use osdns.Tx.Logic.{Oracle, Post, Safe, Safe-bind}
use osdns.Engine.Monitor.{monitor}
use osdns.Engine.Compensate.{MutationResidue, unchanged, restored, pending}
use osdns.Engine.Compensate.Guard.{RollbackPost, rollback_proven-Safe}
use osdns.Engine.Mutate.{MutationFailure, update_points}
use osdns.Engine.Mutate.Verified.{MutatePost, mutate_and_verify-Safe}
use osdns.Engine.Live.{LiveRecord, Outcome}
use osdns.Engine.Live.Synced.{
  IsSynced, shaped, SyncedPost, persist_live-Synced, retain_compensation-Safe,
}
use osdns.Engine.Update.{
  UpdateEntry, Stage, started, untouched, reapplied, settle_update, settle_all, roll_back_updates,
  after_update_failed, update_from,
}
use osdns.Engine.Update.Prepared.{paired, AllPaired, AllShaped, EntriesAnnounced, LivesPost}

module _ {D I : Type 0} where
  -- Each of the entries in a list of pairs is paired.
  abbrev pub FirstsPaired : {A : Type 0} → List (UpdateEntry D I × A) → Type 0
  FirstsPaired {A} xs = All (λ (t : UpdateEntry D I × A). paired t.0 ≡ true) xs

  unchanged-paired : (xs : List (UpdateEntry D I)) → AllPaired xs → FirstsPaired (map untouched xs)
  unchanged-paired [] v = tt
  unchanged-paired (x ∷ xs) v = (v.0, unchanged-paired xs v.1)

module _ {D I : Type 0} (b : Backend D) (o : Oracle D I) where
  abbrev SettledPost : Post D I (List Error × LiveRecord D I)
  SettledPost g r = shaped r.1.state r.1.entry ≡ true

  abbrev RetainedPost : Post D I (Outcome D I)
  RetainedPost g r = IsSynced r.1 g

  settle_update-Safe :
      (x : UpdateEntry D I) (residue : MutationResidue D) (h : History D I)
      → paired x ≡ true
      → Safe o (monitor b) SettledPost (settle_update b x residue) h
  unfolding settle_update
  settle_update-Safe x (pending p) h v =
      Safe-bind o (monitor b) RetainedPost SettledPost _ _ h
        (retain_compensation-Safe b o x.live p x.old h (ground arith)) (λ g r q. q.shape)
  settle_update-Safe x (restored none) h v =
      Safe-bind o (monitor b) SyncedPost SettledPost _ _ h
        (persist_live-Synced b o x.live (reapplied x.old none) h (ground arith))
        (λ g r q. q.0.shape)
  settle_update-Safe x (restored (some s)) h v =
      Safe-bind o (monitor b) SyncedPost SettledPost _ _ h
        (persist_live-Synced b o x.live (reapplied x.old (some s)) h (ground arith))
        (λ g r q. q.0.shape)
  settle_update-Safe x unchanged h v =
      Safe-bind o (monitor b) SyncedPost SettledPost _ _ h
        (persist_live-Synced b o x.live x.old h (ground arith)) (λ g r q. q.0.shape)

  settle_all-Safe :
      (xs : List (UpdateEntry D I × MutationResidue D)) (h : History D I)
      → FirstsPaired xs
      → Safe o (monitor b) (LivesPost b o) (settle_all b xs) h
  unfolding settle_all
  settle_all-Safe [] h v = tt
  settle_all-Safe ((x, residue) ∷ rest) h v =
      Safe-bind o (monitor b) SettledPost (LivesPost b o) _ _ h (settle_update-Safe x residue h v.0)
        λ g r p.
          Safe-bind o (monitor b) (LivesPost b o) (LivesPost b o) _ _ g (settle_all-Safe rest g v.1)
            (λ g' r' p'. (p, p'))

  abbrev ResiduesPost : Post D I (List (UpdateEntry D I × MutationResidue D))
  ResiduesPost g residues = FirstsPaired residues

  roll_back_updates-Safe :
      (done : List (UpdateEntry D I × VerifiedMutation D)) (h : History D I)
      → FirstsPaired done
      → Safe o (monitor b) ResiduesPost (roll_back_updates b done) h
  unfolding roll_back_updates
  roll_back_updates-Safe [] h v = tt
  roll_back_updates-Safe ((x, m) ∷ rest) h v =
      Safe-bind o (monitor b) (RollbackPost b x.old.identity x.applied h) ResiduesPost _ _ h
        (rollback_proven-Safe b o x.old.identity (some (persist m)) x.applied h)
        λ g residue _.
          Safe-bind o (monitor b) ResiduesPost ResiduesPost _ _ g
            (roll_back_updates-Safe rest g v.1) (λ g' residues p. (v.0, p))

  abbrev pub MutatedPost : Post D I (Stage D I (List (UpdateEntry D I × VerifiedMutation D)))
  MutatedPost g (ok done) = FirstsPaired done
  MutatedPost g (err s) = AllShaped s.1

  after_update_failed-Safe :
      (done : List (UpdateEntry D I × VerifiedMutation D)) (x : UpdateEntry D I)
      (xs : List (UpdateEntry D I)) (failure : MutationFailure D) (h : History D I)
      → FirstsPaired done
      → paired x ≡ true
      → AllPaired xs
      → Safe o (monitor b) MutatedPost (after_update_failed b done x xs failure) h
  unfolding after_update_failed
  after_update_failed-Safe done x xs failure h v v' w =
      Safe-bind o (monitor b) ResiduesPost MutatedPost _ _ h (roll_back_updates-Safe done h v)
        λ g residues p. (
          refl,
          Safe-bind o (monitor b) (LivesPost b o) MutatedPost _ _ _
              (settle_all-Safe (residues ++ (x, failure.residue) ∷ map untouched xs) _
                (All-append _ residues _ p (v', unchanged-paired xs w)))
              (λ g' r p'. p'),
        )

  pub update_from-Safe :
      (plan : NormalizedConfig) (done : List (UpdateEntry D I × VerifiedMutation D))
      (xs : List (UpdateEntry D I)) (h : History D I)
      → FirstsPaired done
      → AllPaired xs
      → EntriesAnnounced plan xs (journal_of h)
      → Safe o (monitor b) MutatedPost (update_from b plan done xs) h
  unfolding update_from
  update_from-Safe plan done [] h v w a = v
  update_from-Safe plan done (x ∷ xs) h v w a =
      Safe-bind o (monitor b) (MutatePost b x.old.identity x.applied plan h) MutatedPost _ _ h
        (mutate_and_verify-Safe b o x.old.identity x.applied plan update_points h a.0)
        λ g outcome p. go g outcome p λ m j.
          update_from-Safe plan (done ++ (started x, m) ∷ []) xs g (All-append _ done _ v (w.0, tt))
            w.1 (subst (EntriesAnnounced plan xs) (sym j) a.1)
    where
      go :
          (g : History D I) (outcome : Result (VerifiedMutation D) (MutationFailure D))
          → MutatePost b x.old.identity x.applied plan h g outcome
          → ((m : VerifiedMutation D)
              → journal_of g ≡ journal_of h
              → Safe o
                  (monitor b)
                  MutatedPost
                  (update_from b plan (done ++ (started x, m) ∷ []) xs)
                  g)
          → Safe o
              (monitor b)
              MutatedPost
              (elim outcome [
                | ok m ↦ update_from b plan (done ++ (started x, m) ∷ []) xs
                | err failure ↦ after_update_failed b done (started x) xs failure
              ])
              g
      go g (ok m) p next = next m p.0
      go g (err failure) p next = after_update_failed-Safe done (started x) xs failure g v w.0 w.1
