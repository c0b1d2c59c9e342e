-- ===== src/Engine/Update/Prepared.antt =====
-- The first half of the update transaction: what its entries have in common, and the journal
-- entries that announce it.
use osdns.Prelude.{
  ◌≡◌, refl, sym, subst, Bool, true, some, List, [], ◌∷◌, ◌++◌, ◌&&◌, if◌then◌else◌, All,
  All-append, arith, Bool-cases, inl, inr,
}
use osdns.Text.{text_eq_refl}
use osdns.Error.{Error, Fallible, ok, err, external_modification, transaction_error}
use osdns.Platform.{Backend, owns_current, NormalizedConfig, plan_eq_refl, PlatformSnapshot}
use osdns.Journal.{JournalRecord}
use osdns.Tx.{History, ret, ◌>>=◌, readback, fire, call_write, after_update_capture}
use osdns.Tx.History.{JournalEvent, wrote, same_resource, journal_of, journaled_in}
use osdns.Tx.Logic.{Any, Oracle, Post, Safe, Safe-bind, Safe-or_fail}
use osdns.Engine.Monitor.{monitor, announces}
use osdns.Engine.Live.{LiveRecord, committed}
use osdns.Engine.Live.Synced.{bound, backed, shaped, SyncedPost, persist_live-Synced}
use osdns.Engine.Restore.Reason.{bound_eq}
use osdns.Engine.Update.{
  UpdateEntry, Stage, lives_of, check_all, persist_olds, intended, prepare_from,
}

module _ {D I : Type 0} where
  -- The old record is a committed one, and the live record is of the same resource.
  abbrev pub paired : UpdateEntry D I → Bool
  paired x =
      backed committed x.old
      && bound x.live.entry
      && same_resource x.old.resource x.live.entry.resource
      && same_resource x.live.entry.resource x.old.identity.resource

  abbrev pub AllPaired : List (UpdateEntry D I) → Type 0
  AllPaired xs = All (λ (x : UpdateEntry D I). paired x ≡ true) xs

  abbrev pub AllShaped : List (LiveRecord D I) → Type 0
  AllShaped ls = All (λ (l : LiveRecord D I). shaped l.state l.entry ≡ true) ls

  abbrev pub EntriesShaped : List (UpdateEntry D I) → Type 0
  EntriesShaped xs = All (λ (x : UpdateEntry D I). shaped x.live.state x.live.entry ≡ true) xs

  -- What the journal announces for the resources of the entries.
  abbrev pub EntriesAnnounced :
      NormalizedConfig → List (UpdateEntry D I) → List (JournalEvent D I) → Type 0
  EntriesAnnounced plan xs js =
      All (λ (x : UpdateEntry D I). announces plan (journaled_in x.old.identity.resource js) ≡ true)
        xs

  pub lives_of-shaped : (xs : List (UpdateEntry D I)) → EntriesShaped xs → AllShaped (lives_of xs)
  lives_of-shaped [] h = tt
  lives_of-shaped (x ∷ xs) h = (h.0, lives_of-shaped xs h.1)

  EntriesAnnounced-write :
      (plan : NormalizedConfig) (y : JournalRecord D I) (xs : List (UpdateEntry D I))
      (js : List (JournalEvent D I))
      → announces plan (some y) ≡ true
      → EntriesAnnounced plan xs js
      → EntriesAnnounced plan xs (wrote y ∷ js)
  EntriesAnnounced-write plan y [] js a h = tt
  EntriesAnnounced-write plan y (x ∷ xs) js a h =
      (ground arith, EntriesAnnounced-write plan y xs js a h.1)

  paired-same :
      (x : UpdateEntry D I)
      → paired x ≡ true
      → same_resource x.live.entry.resource x.old.identity.resource ≡ true
  paired-same x v = ground arith

  bound_of : (x : JournalRecord D I) → backed committed x ≡ true → bound x ≡ true
  bound_of x v = ground arith

  -- An entry of a record that is committed.
  pub resolved-paired :
      (l : LiveRecord D I) (applied : PlatformSnapshot D)
      → backed committed l.entry ≡ true
      → paired (record { live = l; old = l.entry; applied = applied }) ≡ true
  resolved-paired l applied v = ground (
    arith,
    text_eq_refl l.entry.resource.text,
    subst (λ r. same_resource l.entry.resource r ≡ true)
        (sym (bound_eq l.entry (bound_of l.entry v))) (text_eq_refl l.entry.resource.text),
  )

module _ {D I : Type 0} (b : Backend D) (o : Oracle D I) where
  abbrev pub LivesPost : Post D I (List Error × List (LiveRecord D I))
  LivesPost g r = AllShaped r.1

  pub check_all-Safe :
      (xs : List (UpdateEntry D I)) (h : History D I) → Safe o (monitor b) Any (check_all b xs) h
  unfolding check_all
  check_all-Safe [] h = tt
  check_all-Safe (x ∷ xs) h =
      Safe-or_fail o (monitor b) Any Any (λ e. err e) (readback x.old.resource) _ h (refl, tt)
        (λ g current _.
          Safe-or_fail o (monitor b) Any Any (λ e. err e) (fire after_update_capture) _ g (refl, tt)
            (λ g' u _. owned g' current (check_all-Safe xs g')) (λ g' e _. tt))
        (λ g e _. tt)
    where
      owned :
          (g : History D I) (current : PlatformSnapshot D)
          → Safe o (monitor b) Any (check_all b xs) g
          → Safe o
              (monitor b)
              Any
              (if owns_current b x.applied current
                then check_all b xs
                else ret (err (external_modification x.old.resource)))
              g
      owned g current next = elim (Bool-cases (owns_current b x.applied current)) [
        | inl e ↦ rw e next
        | inr e ↦ rw e tt
      ]

  pub persist_olds-Safe :
      (xs : List (UpdateEntry D I)) (h : History D I)
      → AllPaired xs
      → Safe o (monitor b) LivesPost (persist_olds b xs) h
  unfolding persist_olds
  persist_olds-Safe [] h v = tt
  persist_olds-Safe (x ∷ xs) h v =
      Safe-bind o (monitor b) SyncedPost LivesPost _ _ h
        (persist_live-Synced b o x.live x.old h (ground arith))
        λ g r p.
          Safe-bind o (monitor b) LivesPost LivesPost _ _ g (persist_olds-Safe xs g v.1)
            λ g' r' p'. (p.0.shape, p')

  abbrev pub PreparedPost : NormalizedConfig → Post D I (Stage D I (List (UpdateEntry D I)))
  PreparedPost plan g (ok ys) =
      AllPaired ys × EntriesShaped ys × EntriesAnnounced plan ys (journal_of g)
  PreparedPost plan g (err s) = AllShaped s.1

  pub prepare_from-Safe :
      (plan : NormalizedConfig) (done xs : List (UpdateEntry D I)) (h : History D I)
      → AllPaired done
      → EntriesShaped done
      → EntriesAnnounced plan done (journal_of h)
      → AllPaired xs
      → Safe o (monitor b) (PreparedPost plan) (prepare_from b plan done xs) h
  unfolding prepare_from
  prepare_from-Safe plan done [] h v s a w = (v, s, a)
  prepare_from-Safe plan done (x ∷ xs) h v s a w = (
    refl,
    go (o h (call_write (intended plan x).live.entry)) (λ u.
        prepare_from-Safe plan (done ++ intended plan x ∷ []) xs _ (All-append _ done _ v (w.0, tt))
          (All-append _ done _ s (ground arith, tt))
          (All-append _ done _
            (EntriesAnnounced-write plan (intended plan x).live.entry done (journal_of h)
              (plan_eq_refl plan) a)
            (rw (paired-same x w.0) (plan_eq_refl plan), tt))
          w.1),
  )
    where
      go :
          (r : Fallible (Unit {0}))
          → ((u : Unit {0})
              → Safe o
                  (monitor b)
                  (PreparedPost plan)
                  (prepare_from b plan (done ++ intended plan x ∷ []) xs)
                  (record { call = call_write (intended plan x).live.entry; reply = ok u } ∷ h))
          → Safe o
              (monitor b)
              (PreparedPost plan)
              (elim r [
                | ok u ↦ prepare_from b plan (done ++ intended plan x ∷ []) xs
                | err e ↦ do
                  (es, ls) ← persist_olds b (done ++ intended plan x ∷ xs)
                  ret (err (transaction_error e es, ls))
              ])
              (record { call = call_write (intended plan x).live.entry; reply = r } ∷ h)
      go (ok u) next = next u
      go (err e) next =
          Safe-bind o (monitor b) LivesPost (PreparedPost plan)
            (persist_olds b (done ++ intended plan x ∷ xs))
            (λ r. ret (err (transaction_error e r.0, r.1)))
            (record { call = call_write (intended plan x).live.entry; reply = err e } ∷ h)
            (persist_olds-Safe (done ++ intended plan x ∷ xs) _ (All-append _ done _ v (w.0, w.1)))
            (λ g r p. p)
