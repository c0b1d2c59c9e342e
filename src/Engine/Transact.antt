-- ===== src/Engine/Transact.antt =====
-- manager.rs: `persist_unmutated` and `transact_with_locks`.
pub mod Announced
pub mod Mutated
pub mod Applied
pub mod Confined
pub mod Owned
use osdns.Prelude.{
  ℕ, Bool, true, false, Option, none, some, List, [], ◌∷◌, ◌++◌, map, if◌then◌else◌, ◌&&◌,
}
use osdns.Text.{Text}
use osdns.Error.{
  ResourceId, Error, Result, ok, err, Fallible, indeterminate_mutation, transaction_error,
}
use osdns.Platform.{
  ResourceIdentity, PlatformSnapshot, Backend, VerifiedMutation, persist, NormalizedConfig,
}
use osdns.Journal.{Phase, JournalRecord}
use osdns.Tx.{
  call_new_lease_id, after_prepared, after_applied, Tx, ret, ask, ◌>>=◌, ◌>>◌, or_fail, readback,
  write, remove, fire, unreachable,
}
use osdns.Engine.Compensate.{MutationResidue, unchanged, restored, pending, rollback_proven}
use osdns.Engine.Mutate.{MutationFailure, initial_points, mutate_and_verify}
use osdns.Engine.Live.{LiveRecord, committed, prepared, Outcome, commit_verified}

pub record PreparedLease (D I : Type 0) : Type 0 where
  pub lease_id : ℕ
  pub records : List (LiveRecord D I)
  pub was_noop : Bool

-- The error of a step that is only noted.
abbrev pub noted : Fallible (Unit {0}) → List Error → List Error
noted (ok u) es = es
noted (err e) es = e ∷ es

module _ {D I : Type 0} where
  -- Removes every record and returns the errors.
  pub remove_all : List (JournalRecord D I) → Tx D I (List Error)
  remove_all [] = ret []
  remove_all (x ∷ xs) = do r ← remove x.lease_id x.resource; es ← remove_all xs; ret (noted r es)

  -- `records[..=index]` is `done` with the record at hand.
  pub persist_from :
      List (JournalRecord D I) → List (JournalRecord D I) → Tx D I (Fallible (Unit {0}))
  persist_from done [] = ret (ok tt)
  persist_from done (x ∷ xs) = do
    r ← write x
    let rest = persist_from (done ++ x ∷ []) xs
    elim r [
      | ok u ↦ rest
      | err primary ↦ do
        cleanup ← remove_all (done ++ x ∷ [])
        ret (err (transaction_error primary cleanup))
    ]

  pub persist_unmutated : List (JournalRecord D I) → Tx D I (Fallible (Unit {0}))
  persist_unmutated records = persist_from [] records

  -- `resources.zip(befores).zip(identities)`
  abbrev pub records_of :
      (ResourceId → PlatformSnapshot D → ResourceIdentity I → JournalRecord D I)
      → List ResourceId
      → List (PlatformSnapshot D)
      → List (ResourceIdentity I)
      → List (JournalRecord D I)
  records_of f (r ∷ rs) (s ∷ ss) (i ∷ is) = f r s i ∷ records_of f rs ss is
  records_of f _ _ _ = []

module _ {D : Type 0} (b : Backend D) where
  abbrev pub all_match : List (PlatformSnapshot D) → NormalizedConfig → Bool
  all_match [] plan = true
  all_match (s ∷ ss) plan = b.matches_desired s plan && all_match ss plan

module _ {D I : Type 0} (b : Backend D) where
  abbrev pub record_for :
      Text
      → ℕ
      → NormalizedConfig
      → Bool
      → ResourceId
      → PlatformSnapshot D
      → ResourceIdentity I
      → JournalRecord D I
  record_for owner lease_id plan was_noop resource before identity = record {
    owner = owner;
    lease_id = lease_id;
    resource = resource;
    backend = b.kind;
    identity = identity;
    phase = if was_noop then Phase.applied else Phase.prepared;
    before = before;
    desired = plan;
    applied = if was_noop then some before else none;
  }

  -- What is done about one resource whose rollback left `residue`.
  roll_back_record : JournalRecord D I → MutationResidue D → Tx D I (List Error)
  roll_back_record x (restored identity) = do r ← remove x.lease_id x.resource; ret (noted r [])
  roll_back_record x (pending p) = do
    r ← write (record x { applied = p.evidence })
    ret (noted r (indeterminate_mutation b.kind ∷ []))
  roll_back_record x unchanged = do unreachable; ret []

  roll_back_done : List (JournalRecord D I × VerifiedMutation D) → Tx D I (List Error)
  roll_back_done [] = ret []
  roll_back_done ((x, m) ∷ rest) = do
    residue ← rollback_proven b x.identity (some (persist m)) x.before
    es ← roll_back_record x residue
    es' ← roll_back_done rest
    ret (es ++ es')

  remove_if_unmutated : JournalRecord D I → Fallible (PlatformSnapshot D) → Tx D I (List Error)
  remove_if_unmutated x (err e) = ret []
  remove_if_unmutated x (ok now) =
      if b.equivalent now x.before
      then (remove x.lease_id x.resource >>= λ r. ret (noted r []))
      else ret []

  -- The resource whose mutation failed.
  settle_failed : JournalRecord D I → MutationResidue D → Tx D I (List Error)
  settle_failed x (pending p) = do r ← write (record x { applied = p.evidence }); ret (noted r [])
  settle_failed x _ = do now ← readback x.resource; remove_if_unmutated x now

  after_mutation_failed :
      List (JournalRecord D I × VerifiedMutation D)
      → JournalRecord D I
      → List (JournalRecord D I)
      → MutationFailure D
      → Tx D I (Fallible (List (JournalRecord D I × VerifiedMutation D)))
  after_mutation_failed done x rest failure = do
    es ← roll_back_done done
    es' ← settle_failed x failure.residue
    es'' ← remove_all rest
    ret (err (transaction_error failure.error (es ++ es' ++ es'')))

  -- The loop over the resources, with those that are done.
  pub mutate_from :
      NormalizedConfig
      → List (JournalRecord D I × VerifiedMutation D)
      → List (JournalRecord D I)
      → Tx D I (Fallible (List (JournalRecord D I × VerifiedMutation D)))
  mutate_from plan done [] = ret (ok done)
  mutate_from plan done (x ∷ xs) = do
    outcome ← mutate_and_verify b x.identity x.before plan initial_points
    elim outcome [
      | ok m ↦ mutate_from plan (done ++ (x, m) ∷ []) xs
      | err failure ↦ after_mutation_failed done x xs failure
    ]

  pub commit_each :
      List (JournalRecord D I × VerifiedMutation D) → Tx D I (Bool × List (LiveRecord D I))
  commit_each [] = ret (true, [])
  commit_each ((x, m) ∷ rest) = do
    (r, live) ← commit_verified b (record { entry = x; state = prepared }) m
    (all_written, lives) ← commit_each rest
    ret ((elim r [ ok u ↦ all_written | err e ↦ false ]), live ∷ lives)

  pub finish_lease : ℕ → Bool × List (LiveRecord D I) → Tx D I (Fallible (PreparedLease D I))
  finish_lease lease_id (true, lives) =
      or_fail (λ e. err e) (fire after_applied)
        λ _. ret (ok (record { lease_id = lease_id; records = lives; was_noop = false }))
  finish_lease lease_id (false, lives) =
      ret (ok (record { lease_id = lease_id; records = lives; was_noop = false }))

  pub commit_all :
      ℕ
      → Fallible (List (JournalRecord D I × VerifiedMutation D))
      → Tx D I (Fallible (PreparedLease D I))
  commit_all lease_id (err e) = ret (err e)
  commit_all lease_id (ok done) = commit_each done >>= finish_lease lease_id

  -- After the records were persisted.
  pub transact_records :
      ℕ → NormalizedConfig → Bool → List (JournalRecord D I) → Tx D I (Fallible (PreparedLease D I))
  transact_records lease_id plan true records =
      or_fail (λ e. err e) (fire after_applied)
        λ _. ret (
          ok (record {
            lease_id = lease_id;
            records = map (λ x. record { entry = x; state = committed }) records;
            was_noop = true;
          }))
  transact_records lease_id plan false records =
      or_fail (λ e. err e) (fire after_prepared)
        λ _. (mutate_from plan [] records >>= commit_all lease_id)

  pub transact_with_locks :
      Text
      → List ResourceId
      → NormalizedConfig
      → List (PlatformSnapshot D)
      → List (ResourceIdentity I)
      → Tx D I (Fallible (PreparedLease D I))
  transact_with_locks owner resources plan befores identities = do
    lease_id ← ask call_new_lease_id ret
    let was_noop = all_match b befores plan
    let records = records_of (record_for owner lease_id plan was_noop) resources befores identities
    or_fail (λ e. err e) (persist_unmutated records)
        λ _. transact_records lease_id plan was_noop records
