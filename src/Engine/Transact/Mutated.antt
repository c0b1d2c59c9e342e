-- ===== src/Engine/Transact/Mutated.antt =====
-- Write-ahead: no resource is mutated before the journal announces its plan, in the whole apply
-- transaction with all its failure paths.
use mathlib.Core.Bool.{false≢true}
use osdns.Prelude.{◌≡◌, refl, sym, subst, Bool, true, List, [], ◌∷◌, ◌++◌, All, All-append, arith}
use osdns.Error.{Result, Fallible, ok, err}
use osdns.Platform.{PlatformSnapshot, Backend, VerifiedMutation, NormalizedConfig}
use osdns.Journal.{JournalRecord}
use osdns.Tx.{History}
use osdns.Tx.History.{journal_of}
use osdns.Tx.Logic.{Any, Oracle, Post, Safe, Safe-bind}
use osdns.Engine.Monitor.{monitor}
use osdns.Engine.Compensate.{MutationResidue, unchanged, restored, pending}
use osdns.Engine.Compensate.Guard.{RollbackPost, rollback_proven-Safe}
use osdns.Engine.Mutate.{MutationFailure, initial_points}
use osdns.Engine.Mutate.Verified.{MutatePost, mutate_and_verify-Safe}
use osdns.Engine.Live.{LiveRecord, prepared}
use osdns.Engine.Live.Synced.{bound, shaped, SyncedPost}
use osdns.Engine.Live.Resolved.{commit_verified-Safe}
use osdns.Engine.Transact.{
  roll_back_record, roll_back_done, remove_if_unmutated, settle_failed, after_mutation_failed,
  mutate_from, commit_each,
}
use osdns.Engine.Transact.Announced.{Announced, AllBound, remove_all-Safe}

module _ {D I : Type 0} (b : Backend D) (o : Oracle D I) (plan : NormalizedConfig) where
  remove_if_unmutated-Safe :
      (x : JournalRecord D I) (r : Fallible (PlatformSnapshot D)) (h : History D I)
      → Safe o (monitor b) Any (remove_if_unmutated b x r) h
  unfolding remove_if_unmutated
  remove_if_unmutated-Safe x (ok now) h = ground arith
  remove_if_unmutated-Safe x (err e) h = tt

  roll_back_record-Safe :
      (x : JournalRecord D I) (h g : History D I) (residue : MutationResidue D)
      → RollbackPost b x.identity x.before h g residue
      → Safe o (monitor b) Any (roll_back_record b x residue) g
  unfolding roll_back_record
  roll_back_record-Safe x h g (restored identity) p = (refl, tt)
  roll_back_record-Safe x h g (pending q) p = (refl, tt)
  roll_back_record-Safe x h g unchanged p = absurd (false≢true p.1)

  roll_back_done-Safe :
      (done : List (JournalRecord D I × VerifiedMutation D)) (h : History D I)
      → Safe o (monitor b) Any (roll_back_done b done) h
  unfolding roll_back_done
  roll_back_done-Safe [] h = tt
  roll_back_done-Safe ((x, m) ∷ rest) h =
      Safe-bind o (monitor b) (RollbackPost b x.identity x.before h) Any _ _ h
        (rollback_proven-Safe b o x.identity _ x.before h)
        λ g residue p.
          Safe-bind o (monitor b) Any Any _ _ g (roll_back_record-Safe x h g residue p) λ g' es _.
            Safe-bind o (monitor b) Any Any _ _ g' (roll_back_done-Safe rest g') (λ g'' es' _. tt)

  settle_failed-Safe :
      (x : JournalRecord D I) (residue : MutationResidue D) (h : History D I)
      → Safe o (monitor b) Any (settle_failed b x residue) h
  unfolding settle_failed
  settle_failed-Safe x (pending p) h = (refl, tt)
  settle_failed-Safe x _ h = (refl, remove_if_unmutated-Safe x _ _)

  -- What is known of the mutated records.
  abbrev pub Mutated : List (JournalRecord D I × VerifiedMutation D) → Type 0
  Mutated done = All (λ (t : JournalRecord D I × VerifiedMutation D). bound t.0 ≡ true) done

  abbrev pub MutatedPost : Post D I (Fallible (List (JournalRecord D I × VerifiedMutation D)))
  MutatedPost g (ok done) = Mutated done
  MutatedPost g (err e) = Unit {0}

  after_mutation_failed-Safe :
      (done : List (JournalRecord D I × VerifiedMutation D)) (x : JournalRecord D I)
      (rest : List (JournalRecord D I)) (failure : MutationFailure D) (h : History D I)
      → Safe o (monitor b) MutatedPost (after_mutation_failed b done x rest failure) h
  unfolding after_mutation_failed
  after_mutation_failed-Safe done x rest failure h =
      Safe-bind o (monitor b) Any MutatedPost _ _ h (roll_back_done-Safe done h) λ g es _.
        Safe-bind o (monitor b) Any MutatedPost _ _ g (settle_failed-Safe x failure.residue g)
          λ g' es' _.
            Safe-bind o (monitor b) Any MutatedPost _ _ g'
              (remove_all-Safe o (monitor b) rest g' (λ k l r. refl)) (λ g'' es'' _. tt)

  pub mutate_from-Safe :
      (done : List (JournalRecord D I × VerifiedMutation D)) (xs : List (JournalRecord D I))
      (h : History D I)
      → Mutated done
      → AllBound xs
      → Announced plan xs (journal_of h)
      → Safe o (monitor b) MutatedPost (mutate_from b plan done xs) h
  unfolding mutate_from
  mutate_from-Safe done [] h d v a = d
  mutate_from-Safe done (x ∷ xs) h d v a =
      Safe-bind o (monitor b) (MutatePost b x.identity x.before plan h) MutatedPost _ _ h
        (mutate_and_verify-Safe b o x.identity x.before plan initial_points h a.0)
        λ g outcome p. go g outcome (journal_kept g outcome p) λ m j.
          mutate_from-Safe (done ++ (x, m) ∷ []) xs g (All-append _ done _ d (v.0, tt)) v.1
            (subst (Announced plan xs) (sym j) a.1)
    where
      journal_kept :
          (g : History D I) (outcome : Result (VerifiedMutation D) (MutationFailure D))
          → MutatePost b x.identity x.before plan h g outcome
          → journal_of g ≡ journal_of h
      journal_kept g (ok m) p = p.0
      journal_kept g (err f) p = p.0

      go :
          (g : History D I) (outcome : Result (VerifiedMutation D) (MutationFailure D))
          → journal_of g ≡ journal_of h
          → ((m : VerifiedMutation D)
              → journal_of g ≡ journal_of h
              → Safe o (monitor b) MutatedPost (mutate_from b plan (done ++ (x, m) ∷ []) xs) g)
          → Safe o
              (monitor b)
              MutatedPost
              (elim outcome [
                | ok m ↦ mutate_from b plan (done ++ (x, m) ∷ []) xs
                | err failure ↦ after_mutation_failed b done x xs failure
              ])
              g
      go g (ok m) j next = next m j
      go g (err failure) j next = after_mutation_failed-Safe done x xs failure g

  abbrev pub CommittedPost : Post D I (Bool × List (LiveRecord D I))
  CommittedPost g r = All (λ (l : LiveRecord D I). shaped l.state l.entry ≡ true) r.1

  pub commit_each-Safe :
      (done : List (JournalRecord D I × VerifiedMutation D)) (h : History D I)
      → Mutated done
      → Safe o (monitor b) CommittedPost (commit_each b done) h
  unfolding commit_each
  commit_each-Safe [] h d = tt
  commit_each-Safe ((x, m) ∷ rest) h d =
      Safe-bind o (monitor b) SyncedPost CommittedPost _ _ h
        (commit_verified-Safe b o (record { entry = x; state = prepared }) m h d.0)
        λ g r p.
          Safe-bind o (monitor b) CommittedPost CommittedPost _ _ g (commit_each-Safe rest g d.1)
            λ g' r' p'. (p.0.shape, p')
