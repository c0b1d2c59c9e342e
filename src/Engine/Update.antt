-- ===== src/Engine/Update.antt =====
-- manager.rs: `transact_update`. The live records of the lease come back beside the result.
pub mod Prepared
pub mod Settled
pub mod Resolved
pub mod Updated
use osdns.Prelude.{
  Bool, true, false, Option, none, some, List, [], ◌∷◌, ◌++◌, map, if◌then◌else◌, ◌&&◌,
}
use osdns.Error.{
  Error, Result, ok, err, Fallible, external_modification, indeterminate_mutation,
  transaction_error,
}
use osdns.Platform.{
  PlatformSnapshot, Backend, VerifiedMutation, persist, NormalizedConfig, owns_current,
}
use osdns.Journal.{Phase, JournalRecord}
use osdns.Tx.{
  after_update_resolve, after_update_capture, after_update_noop_check, after_update_prepared,
  after_update_verify, after_update_applied, Tx, ret, ◌>>=◌, or_fail, readback, write, fire,
}
use osdns.Engine.Compensate.{MutationResidue, unchanged, restored, pending, rollback_proven}
use osdns.Engine.Mutate.{MutationFailure, update_points, mutate_and_verify}
use osdns.Engine.Live.{
  LiveRecord, unmutated, prepared, Outcome, applied_of, persist_live, retain_compensation,
  resolve_live, commit_verified,
}
use osdns.Engine.Transact.{noted}

-- One resource of the update: `live[index]`, `olds[index]` and `applieds[index]`.
pub record UpdateEntry (D I : Type 0) : Type 0 where
  pub live : LiveRecord D I
  pub old : JournalRecord D I
  pub applied : PlatformSnapshot D

-- A stage that may end the update, with the live records as they are then.
abbrev pub Stage : Type 0 → Type 0 → Type 0 → Type 0
Stage D I A = Result A (Error × List (LiveRecord D I))

abbrev pub Updated : Type 0 → Type 0 → Type 0
Updated D I = Fallible (Unit {0}) × List (LiveRecord D I)

abbrev pub first_error : Fallible (Unit {0}) → Fallible (Unit {0}) → Fallible (Unit {0})
first_error (err e) rest = err e
first_error (ok u) rest = rest

module _ {D I : Type 0} where
  abbrev pub or_stop :
      {A : Type 0} → Tx D I (Stage D I A) → (A → Tx D I (Updated D I)) → Tx D I (Updated D I)
  or_stop m k = m >>= λ r. elim r [ ok a ↦ k a | err s ↦ ret (err s.0, s.1) ]

  abbrev pub lives_of : List (UpdateEntry D I) → List (LiveRecord D I)
  lives_of xs = map (λ x. x.live) xs

  abbrev pub add_entry :
      LiveRecord D I
      → PlatformSnapshot D
      → Stage D I (List (UpdateEntry D I))
      → Stage D I (List (UpdateEntry D I))
  add_entry live applied (ok xs) =
      ok (record { live = live; old = live.entry; applied = applied } ∷ xs)
  add_entry live applied (err s) = err (s.0, live ∷ s.1)

  -- The live record with the intent of the update.
  abbrev pub intended : NormalizedConfig → UpdateEntry D I → UpdateEntry D I
  intended plan x = record x {
    live = record {
      entry = record x.live.entry { desired = plan; phase = Phase.prepared };
      state = unmutated;
    };
  }

  -- `candidate` after a rollback that gave `identity`.
  abbrev pub reapplied : JournalRecord D I → Option (PlatformSnapshot D) → JournalRecord D I
  reapplied old (some s) = record old { applied = some s }
  reapplied old none = record old { applied = none; phase = Phase.prepared }

  abbrev pub started : UpdateEntry D I → UpdateEntry D I
  started x = record x { live = record { entry = x.live.entry; state = prepared } }

  abbrev pub untouched : UpdateEntry D I → UpdateEntry D I × MutationResidue D
  untouched y = (y, unchanged)

module _ {D : Type 0} (b : Backend D) where
  abbrev pub all_applied : {I : Type 0} → List (UpdateEntry D I) → NormalizedConfig → Bool
  all_applied [] plan = true
  all_applied (x ∷ xs) plan = b.matches_desired x.applied plan && all_applied xs plan

module _ {D I : Type 0} (b : Backend D) where
  -- Every live record is settled and says what it applied.
  pub resolve_all : List (LiveRecord D I) → Tx D I (Stage D I (List (UpdateEntry D I)))
  resolve_all [] = ret (ok [])
  resolve_all (l ∷ ls) = do
    (r, l') ← resolve_live b l none
    elim r [
      | err e ↦ ret (err (e, l' ∷ ls))
      | ok u ↦ elim (applied_of l') [
        | none ↦ ret (err (external_modification l'.entry.resource, l' ∷ ls))
        | some applied ↦ do rest ← resolve_all ls; ret (add_entry l' applied rest)
      ]
    ]

  -- Every resource still holds what the lease applied.
  pub check_all : List (UpdateEntry D I) → Tx D I (Fallible (Unit {0}))
  check_all [] = ret (ok tt)
  check_all (x ∷ xs) =
      let rest = check_all xs in
      or_fail (λ e. err e) (readback x.old.resource)
        λ current.
          or_fail (λ e. err e) (fire after_update_capture)
            λ _.
              if owns_current b x.applied current
              then rest
              else ret (err (external_modification x.old.resource))

  pub persist_olds : List (UpdateEntry D I) → Tx D I (List Error × List (LiveRecord D I))
  persist_olds [] = ret ([], [])
  persist_olds (x ∷ xs) = do
    (r, l) ← persist_live x.live x.old
    (es, ls) ← persist_olds xs
    ret (noted r es, l ∷ ls)

  pub prepare_from :
      NormalizedConfig
      → List (UpdateEntry D I)
      → List (UpdateEntry D I)
      → Tx D I (Stage D I (List (UpdateEntry D I)))
  prepare_from plan done [] = ret (ok done)
  prepare_from plan done (x ∷ xs) = do
    r ← write (intended plan x).live.entry
    elim r [
      | ok u ↦ prepare_from plan (done ++ intended plan x ∷ []) xs
      | err e ↦ do
        (es, ls) ← persist_olds (done ++ intended plan x ∷ xs)
        ret (err (transaction_error e es, ls))
    ]

  pub settle_update : UpdateEntry D I → MutationResidue D → Tx D I (List Error × LiveRecord D I)
  settle_update x (pending p) = do
    (r, l) ← retain_compensation x.live p x.old
    ret (noted r (indeterminate_mutation b.kind ∷ []), l)
  settle_update x (restored identity) = do
    (r, l) ← persist_live x.live (reapplied x.old identity)
    ret (noted r [], l)
  settle_update x unchanged = do (r, l) ← persist_live x.live x.old; ret (noted r [], l)

  pub settle_all :
      List (UpdateEntry D I × MutationResidue D) → Tx D I (List Error × List (LiveRecord D I))
  settle_all [] = ret ([], [])
  settle_all ((x, residue) ∷ rest) = do
    (es, l) ← settle_update x residue
    (es', ls) ← settle_all rest
    ret (es ++ es', l ∷ ls)

  pub roll_back_updates :
      List (UpdateEntry D I × VerifiedMutation D)
      → Tx D I (List (UpdateEntry D I × MutationResidue D))
  roll_back_updates [] = ret []
  roll_back_updates ((x, m) ∷ rest) = do
    residue ← rollback_proven b x.old.identity (some (persist m)) x.applied
    residues ← roll_back_updates rest
    ret ((x, residue) ∷ residues)

  -- The failed resource was marked `Prepared`; those after it were not touched.
  pub after_update_failed :
      List (UpdateEntry D I × VerifiedMutation D)
      → UpdateEntry D I
      → List (UpdateEntry D I)
      → MutationFailure D
      → Tx D I (Stage D I (List (UpdateEntry D I × VerifiedMutation D)))
  after_update_failed done x xs failure = do
    residues ← roll_back_updates done
    ignored ← fire after_update_verify
    (es, ls) ← settle_all (residues ++ (x, failure.residue) ∷ map untouched xs)
    ret (err (transaction_error failure.error es, ls))

  pub update_from :
      NormalizedConfig
      → List (UpdateEntry D I × VerifiedMutation D)
      → List (UpdateEntry D I)
      → Tx D I (Stage D I (List (UpdateEntry D I × VerifiedMutation D)))
  update_from plan done [] = ret (ok done)
  update_from plan done (x ∷ xs) = do
    outcome ← mutate_and_verify b x.old.identity x.applied plan update_points
    elim outcome [
      | ok m ↦ update_from plan (done ++ (started x, m) ∷ []) xs
      | err failure ↦ after_update_failed done (started x) xs failure
    ]

  -- Every record is finalized, and the first error is kept.
  pub commit_updates : List (UpdateEntry D I × VerifiedMutation D) → Tx D I (Updated D I)
  commit_updates [] = ret (ok tt, [])
  commit_updates ((x, m) ∷ rest) = do
    (r, l) ← commit_verified b x.live m
    (r', ls) ← commit_updates rest
    ret (first_error r r', l ∷ ls)

  pub finish_update : Updated D I → Tx D I (Updated D I)
  finish_update (err e, ls) = ret (err e, ls)
  finish_update (ok u, ls) =
      or_fail (λ e. (err e, ls)) (fire after_update_applied) λ _. ret (ok tt, ls)

  -- From the ownership check on.
  pub update_owned : NormalizedConfig → List (UpdateEntry D I) → Tx D I (Updated D I)
  update_owned plan xs = or_stop (prepare_from plan [] xs) λ ys.
      or_fail (λ e. (err e, lives_of ys)) (fire after_update_prepared)
        λ _. or_stop (update_from plan [] ys) λ done. (commit_updates done >>= finish_update)

  pub update_resolved : NormalizedConfig → List (UpdateEntry D I) → Tx D I (Updated D I)
  update_resolved plan xs =
      or_fail (λ e. (err e, lives_of xs)) (check_all xs)
        λ _.
          if all_applied b xs plan
          then (or_fail (λ e. (err e, lives_of xs)) (fire after_update_noop_check)
              λ _. ret (ok tt, lives_of xs))
          else update_owned plan xs

  pub transact_update : List (LiveRecord D I) → NormalizedConfig → Tx D I (Updated D I)
  transact_update lives plan =
      or_fail (λ e. (err e, lives)) (fire after_update_resolve)
        λ _. or_stop (resolve_all lives) λ xs. update_resolved plan xs
