-- ===== src/Engine/Transact/Announced.antt =====
-- Write-ahead: no resource is mutated before the journal announces its plan, in the whole apply
-- transaction with all its failure paths.
use mathlib.Core.List.{append_assoc, append-nil}
use osdns.Prelude.{
  ℕ, ◌≡◌, refl, sym, subst, true, some, List, [], ◌∷◌, ◌++◌, All, All-append, arith,
}
use osdns.Text.{text_eq_refl}
use osdns.Error.{ResourceId, Fallible, ok, err, transaction_error}
use osdns.Platform.{Backend, NormalizedConfig}
use osdns.Journal.{JournalRecord}
use osdns.Tx.{History, ret, ◌>>=◌, call_write, call_remove}
use osdns.Tx.History.{JournalEvent, wrote, journal_of, journaled_in}
use osdns.Tx.Logic.{Any, Oracle, Permit, Post, Safe, Safe-bind, Safe-mono}
use osdns.Engine.Monitor.{monitor, announces}
use osdns.Engine.Live.Synced.{bound}
use osdns.Engine.Restore.Reason.{bound_eq}
use osdns.Engine.Transact.{remove_all, persist_from}

module _ {D I : Type 0} where
  abbrev pub Announced :
      NormalizedConfig → List (JournalRecord D I) → List (JournalEvent D I) → Type 0
  Announced plan xs js = All (λ x. announces plan (journaled_in x.identity.resource js) ≡ true) xs

  abbrev pub Announcing : NormalizedConfig → List (JournalRecord D I) → Type 0
  Announcing plan xs = All (λ x. announces plan (some x) ≡ true) xs

  abbrev pub AllBound : List (JournalRecord D I) → Type 0
  AllBound xs = All (λ x. bound x ≡ true) xs

  -- A write that announces the plan takes no announcement away.
  pub Announced-write :
      (plan : NormalizedConfig) (y : JournalRecord D I) (xs : List (JournalRecord D I))
      (js : List (JournalEvent D I))
      → announces plan (some y) ≡ true
      → Announced plan xs js
      → Announced plan xs (wrote y ∷ js)
  Announced-write plan y [] js a h = tt
  Announced-write plan y (x ∷ xs) js a h = (ground arith, Announced-write plan y xs js a h.1)

  pub announces_write :
      (plan : NormalizedConfig) (x : JournalRecord D I) (js : List (JournalEvent D I))
      → announces plan (some x) ≡ true
      → bound x ≡ true
      → announces plan (journaled_in x.identity.resource (wrote x ∷ js)) ≡ true
  announces_write plan x js a v =
      subst (λ r. announces plan (journaled_in r (wrote x ∷ js)) ≡ true) (sym (bound_eq x v))
        (rw (text_eq_refl x.resource.text) a)

module _ {D I : Type 0} (o : Oracle D I) (permit : Permit D I) where
  pub remove_all-Safe :
      (xs : List (JournalRecord D I)) (h : History D I)
      → ((g : History D I) (l : ℕ) (r : ResourceId) → permit g (call_remove l r) ≡ true)
      → Safe o permit Any (remove_all xs) h
  unfolding remove_all
  remove_all-Safe [] h free = tt
  remove_all-Safe (x ∷ xs) h free = (
    free h x.lease_id x.resource,
    Safe-bind o permit Any Any _ _ _ (remove_all-Safe xs _ free) (λ g es _. tt),
  )

  pub persist_from-Any :
      (done xs : List (JournalRecord D I)) (h : History D I)
      → ((g : History D I) (l : ℕ) (r : ResourceId) → permit g (call_remove l r) ≡ true)
      → ((g : History D I) (x : JournalRecord D I) → permit g (call_write x) ≡ true)
      → Safe o permit Any (persist_from done xs) h
  unfolding persist_from
  persist_from-Any done [] h free free' = tt
  persist_from-Any done (x ∷ xs) h free free' =
      (free' h x, go (o h (call_write x)) (λ g. persist_from-Any (done ++ x ∷ []) xs g free free'))
    where
      go :
          (r : Fallible (Unit {0}))
          → ((g : History D I) → Safe o permit Any (persist_from (done ++ x ∷ []) xs) g)
          → Safe o permit Any
              (elim r [
                | ok u ↦ persist_from (done ++ x ∷ []) xs
                | err primary ↦ do
                  cleanup ← remove_all (done ++ x ∷ [])
                  ret (err (transaction_error primary cleanup))
              ])
              (record { call = call_write x; reply = r } ∷ h)
      go (ok u) next = next _
      go (err e) next =
          Safe-bind o permit Any Any _ _ _ (remove_all-Safe (done ++ x ∷ []) _ free) (λ g es _. tt)

module _ {D I : Type 0} (b : Backend D) (o : Oracle D I) (plan : NormalizedConfig) where
  abbrev pub PersistPost : List (JournalRecord D I) → Post D I (Fallible (Unit {0}))
  PersistPost xs g (ok u) = Announced plan xs (journal_of g)
  PersistPost xs g (err e) = Unit {0}

  -- For records that are Prepared with the plan and whose identities name their resources,
  -- `persist_unmutated`, with `done` already announced, obeys the monitor, and `Ok` means that the
  -- journal announces the plan for every record.
  pub persist_from-Safe :
      (done xs : List (JournalRecord D I)) (h : History D I)
      → Announcing plan xs
      → AllBound xs
      → Announced plan done (journal_of h)
      → Safe o (monitor b) (PersistPost (done ++ xs)) (persist_from done xs) h
  unfolding persist_from
  persist_from-Safe done [] h a v d =
      subst (λ l. Announced plan l (journal_of h)) (sym (append-nil done)) d
  persist_from-Safe done (x ∷ xs) h a v d =
      (refl, go (o h (call_write x)) (λ u. persist_from-Safe (done ++ x ∷ []) xs _ a.1 v.1 now))
    where
      now : Announced plan (done ++ x ∷ []) (wrote x ∷ journal_of h)
      now =
          All-append _ done (x ∷ []) (Announced-write plan x done (journal_of h) a.0 d)
            (announces_write plan x (journal_of h) a.0 v.0, tt)

      go :
          (r : Fallible (Unit {0}))
          → ((u : Unit {0})
              → Safe o
                  (monitor b)
                  (PersistPost ((done ++ x ∷ []) ++ xs))
                  (persist_from (done ++ x ∷ []) xs)
                  (record { call = call_write x; reply = ok u } ∷ h))
          → Safe o
              (monitor b)
              (PersistPost (done ++ x ∷ xs))
              (elim r [
                | ok u ↦ persist_from (done ++ x ∷ []) xs
                | err primary ↦ do
                  cleanup ← remove_all (done ++ x ∷ [])
                  ret (err (transaction_error primary cleanup))
              ])
              (record { call = call_write x; reply = r } ∷ h)
      go (err primary) next =
          Safe-bind o (monitor b) Any _ _ _ _
            (remove_all-Safe o (monitor b) (done ++ x ∷ []) _ (λ g l r. refl)) (λ g es _. tt)
      go (ok u) next =
          Safe-mono o (monitor b) _ (PersistPost (done ++ x ∷ xs)) _ _ (next u)
            (λ g r p. regroup r g p)
        where
          regroup :
              (r : Fallible (Unit {0})) (g : History D I)
              → PersistPost ((done ++ x ∷ []) ++ xs) g r
              → PersistPost (done ++ x ∷ xs) g r
          regroup (ok u') g p =
              subst (λ l. Announced plan l (journal_of g)) (append_assoc done (x ∷ []) xs) p
          regroup (err e) g p = tt
