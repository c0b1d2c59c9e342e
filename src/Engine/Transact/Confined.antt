-- ===== src/Engine/Transact/Confined.antt =====
-- The apply transaction is confined to its resources.
use osdns.Prelude.{
  ◌≡◌, refl, ap, subst, Bool, true, List, [], ◌∷◌, ◌++◌, ◌&&◌, All, All-append, arith,
}
use osdns.Error.{ResourceId, Result, Fallible, ok, err, transaction_error}
use osdns.Platform.{PlatformSnapshot, Backend, VerifiedMutation, NormalizedConfig}
use osdns.Journal.{JournalRecord}
use osdns.Tx.{call_write, History, ret, ◌>>=◌}
use osdns.Tx.Logic.{Any, Oracle, Post, Safe, Safe-bind}
use osdns.Engine.Compensate.{MutationResidue, unchanged, restored, pending}
use osdns.Engine.Compensate.Confined.{rollback_proven-Confined}
use osdns.Engine.Mutate.{MutationFailure, initial_points}
use osdns.Engine.Mutate.Confined.{mutate_and_verify-Confined}
use osdns.Engine.Transact.{
  remove_all, persist_from, roll_back_record, roll_back_done, remove_if_unmutated, settle_failed,
  after_mutation_failed, mutate_from,
}
use osdns.Engine.Confined.{confined, covers}

abbrev pub entries_of : {D I : Type 0} → List (JournalRecord D I) → List ResourceId
entries_of [] = []
entries_of (x ∷ xs) = x.resource ∷ entries_of xs

append_nil : {A : Type 0} (xs : List A) → xs ≡ xs ++ []
append_nil [] = refl
append_nil (x ∷ xs) = ap (λ ys. x ∷ ys) (append_nil xs)

module _ {D I : Type 0} where
  abbrev pub targets : List (JournalRecord D I × VerifiedMutation D) → List ResourceId
  targets [] = []
  targets ((x, m) ∷ rest) = x.resource ∷ targets rest

  targets_step :
      (done : List (JournalRecord D I × VerifiedMutation D)) (x : JournalRecord D I)
      (m : VerifiedMutation D) (qs : List ResourceId)
      → targets (done ++ (x, m) ∷ []) ++ qs ≡ targets done ++ x.resource ∷ qs
  targets_step [] x m qs = refl
  targets_step ((y, n) ∷ done) x m qs = ap (λ rs. y.resource ∷ rs) (targets_step done x m qs)

module _ {D I : Type 0} (rs : List ResourceId) where
  -- The record is of a resource among `rs`, and of that resource alone.
  abbrev pub placed : JournalRecord D I → Bool
  placed x = covers rs x && covers (x.resource ∷ []) x

  abbrev pub AllCovered : List (JournalRecord D I) → Type 0
  AllCovered xs = All (λ (x : JournalRecord D I). placed x ≡ true) xs

  abbrev pub DoneCovered : List (JournalRecord D I × VerifiedMutation D) → Type 0
  DoneCovered done = All (λ (t : JournalRecord D I × VerifiedMutation D). placed t.0 ≡ true) done

  abbrev pub DonePost :
      List ResourceId → Post D I (Fallible (List (JournalRecord D I × VerifiedMutation D)))
  DonePost qs g (ok done) = DoneCovered done × (targets done ≡ qs)
  DonePost qs g (err e) = Unit {0}

module _ {D I : Type 0} (b : Backend D) (o : Oracle D I) (rs : List ResourceId) where
  remove_all-Confined :
      (xs : List (JournalRecord D I)) (h : History D I)
      → AllCovered rs xs
      → Safe o (confined rs) Any (remove_all xs) h
  unfolding remove_all
  remove_all-Confined [] h v = tt
  remove_all-Confined (x ∷ xs) h v = (
    ground arith,
    Safe-bind o (confined rs) Any Any _ _ _ (remove_all-Confined xs _ v.1) (λ g es _. tt),
  )

  pub persist_from-Confined :
      (done xs : List (JournalRecord D I)) (h : History D I)
      → AllCovered rs done
      → AllCovered rs xs
      → Safe o (confined rs) Any (persist_from done xs) h
  unfolding persist_from
  persist_from-Confined done [] h d v = tt
  persist_from-Confined done (x ∷ xs) h d v = (
    ground arith,
    go (o h (call_write x))
        (λ g. persist_from-Confined (done ++ x ∷ []) xs g (All-append _ done _ d (v.0, tt)) v.1),
  )
    where
      go :
          (r : Fallible (Unit {0}))
          → ((g : History D I) → Safe o (confined rs) Any (persist_from (done ++ x ∷ []) xs) g)
          → Safe o
              (confined rs)
              Any
              (elim r [
                | ok u ↦ persist_from (done ++ x ∷ []) xs
                | err primary ↦ do
                  cleanup ← remove_all (done ++ x ∷ [])
                  ret (err (transaction_error primary cleanup))
              ])
              (record { call = call_write x; reply = r } ∷ h)
      go (ok u) next = next _
      go (err e) next =
          Safe-bind o (confined rs) Any Any _ _ _
            (remove_all-Confined (done ++ x ∷ []) _ (All-append _ done _ d (v.0, tt)))
            (λ g es _. tt)

  roll_back_record-Confined :
      (x : JournalRecord D I) (residue : MutationResidue D) (h : History D I)
      → placed rs x ≡ true
      → Safe o (confined rs) Any (roll_back_record b x residue) h
  unfolding roll_back_record
  roll_back_record-Confined x (restored i) h v = ground arith
  roll_back_record-Confined x (pending q) h v = ground arith
  roll_back_record-Confined x unchanged h v = (refl, tt)

  roll_back_done-Confined :
      (done : List (JournalRecord D I × VerifiedMutation D)) (h : History D I)
      → DoneCovered rs done
      → Safe o (confined rs) Any (roll_back_done b done) h
  unfolding roll_back_done
  roll_back_done-Confined [] h v = tt
  roll_back_done-Confined ((x, m) ∷ rest) h v =
      Safe-bind o (confined rs) Any Any _ _ h
        (rollback_proven-Confined b o rs x.identity _ x.before h (ground arith))
        λ g residue _.
          Safe-bind o (confined rs) Any Any _ _ g (roll_back_record-Confined x residue g v.0)
            λ g' es _.
              Safe-bind o (confined rs) Any Any _ _ g' (roll_back_done-Confined rest g' v.1)
                (λ g'' es' _. tt)

  remove_if_unmutated-Confined :
      (x : JournalRecord D I) (r : Fallible (PlatformSnapshot D)) (h : History D I)
      → placed rs x ≡ true
      → Safe o (confined rs) Any (remove_if_unmutated b x r) h
  unfolding remove_if_unmutated
  remove_if_unmutated-Confined x (ok now) h v = ground arith
  remove_if_unmutated-Confined x (err e) h v = tt

  settle_failed-Confined :
      (x : JournalRecord D I) (residue : MutationResidue D) (h : History D I)
      → placed rs x ≡ true
      → Safe o (confined rs) Any (settle_failed b x residue) h
  unfolding settle_failed
  settle_failed-Confined x (pending p) h v = ground arith
  settle_failed-Confined x _ h v = (refl, remove_if_unmutated-Confined x _ _ v)

  after_mutation_failed-Confined :
      (qs : List ResourceId) (done : List (JournalRecord D I × VerifiedMutation D))
      (x : JournalRecord D I) (rest : List (JournalRecord D I)) (failure : MutationFailure D)
      (h : History D I)
      → DoneCovered rs done
      → placed rs x ≡ true
      → AllCovered rs rest
      → Safe o (confined rs) (DonePost rs qs) (after_mutation_failed b done x rest failure) h
  unfolding after_mutation_failed
  after_mutation_failed-Confined qs done x rest failure h d v w =
      Safe-bind o (confined rs) Any (DonePost rs qs) _ _ h (roll_back_done-Confined done h d)
        λ g es _.
          Safe-bind o (confined rs) Any (DonePost rs qs) _ _ g
            (settle_failed-Confined x failure.residue g v)
            λ g' es' _.
              Safe-bind o (confined rs) Any (DonePost rs qs) _ _ g' (remove_all-Confined rest g' w)
                (λ g'' es'' _. tt)

  pub mutate_from-Confined :
      (plan : NormalizedConfig) (done : List (JournalRecord D I × VerifiedMutation D))
      (xs : List (JournalRecord D I)) (h : History D I)
      → DoneCovered rs done
      → AllCovered rs xs
      → Safe o
          (confined rs)
          (DonePost rs (targets done ++ entries_of xs))
          (mutate_from b plan done xs)
          h
  unfolding mutate_from
  mutate_from-Confined plan done [] h d v = (d, append_nil (targets done))
  mutate_from-Confined plan done (x ∷ xs) h d v =
      Safe-bind o (confined rs) Any (DonePost rs (targets done ++ x.resource ∷ entries_of xs)) _ _ h
        (mutate_and_verify-Confined b o rs x.identity x.before plan initial_points h (ground arith))
        λ g outcome _. go g outcome λ m.
          subst
            (λ qs.
              Safe o (confined rs) (DonePost rs qs) (mutate_from b plan (done ++ (x, m) ∷ []) xs) g)
            (targets_step done x m (entries_of xs))
            (mutate_from-Confined plan (done ++ (x, m) ∷ []) xs g (All-append _ done _ d (v.0, tt))
              v.1)
    where
      go :
          (g : History D I) (outcome : Result (VerifiedMutation D) (MutationFailure D))
          → ((m : VerifiedMutation D)
              → Safe o
                  (confined rs)
                  (DonePost rs (targets done ++ x.resource ∷ entries_of xs))
                  (mutate_from b plan (done ++ (x, m) ∷ []) xs)
                  g)
          → Safe o
              (confined rs)
              (DonePost rs (targets done ++ x.resource ∷ entries_of xs))
              (elim outcome [
                | ok m ↦ mutate_from b plan (done ++ (x, m) ∷ []) xs
                | err failure ↦ after_mutation_failed b done x xs failure
              ])
              g
      go g (ok m) next = next m
      go g (err failure) next = after_mutation_failed-Confined _ done x xs failure g d v.0 v.1
