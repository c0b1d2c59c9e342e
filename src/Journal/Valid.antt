-- ===== src/Journal/Valid.antt =====
-- journal.rs: `validate_record`, and manager.rs: `validate_owner`. The checks of a snapshot that a
-- platform adds are an argument.
use osdns.Prelude.{
  ℕ, ◌≡◌, refl, Bool, true, false, Option, none, some, List, [], ◌∷◌, ◌⊎◌, not, ◌&&◌, ◌||◌,
  if◌then◌else◌, leb, ltb, ◌==◌, length, arith,
}
use osdns.Text.{Text, text_eq_comm}
use osdns.Error.{
  Error, BackendKind, BackendKind-discrete, ResourceId, Fallible, ok, err, invalid_config,
  journal_corrupt, ◌>>=◌,
}
use osdns.Platform.{IpAddr, PlatformSnapshot}
use osdns.Journal.{Phase, prepared, applied, JournalRecord}
use osdns.Tx.History.{same_resource}
use osdns.Config.Build.{is_unspecified}
use osdns.Engine.Live.{LiveState, committed, unmutated}
use osdns.Engine.Live.Synced.{bound, backed, is_applied, is_some}

abbrev same_backend : BackendKind → BackendKind → Bool
same_backend k l = elim (BackendKind-discrete k l) [ yes p ↦ true | no n ↦ false ]

pub same_backend_refl : (k : BackendKind) → same_backend k k ≡ true
same_backend_refl k = decided (BackendKind-discrete k k)
  where
    decided : (d : Dec (k ≡ k)) → elim d [ yes p ↦ true | no n ↦ false ] ≡ true
    decided (yes p) = refl
    decided (no n) = absurd (n refl)

-- An ASCII letter or digit, `.`, `-` or `_`.
abbrev is_owner_char : ℕ → Bool
is_owner_char c =
    (leb 97 c && leb c 122)
    || (leb 65 c && leb c 90)
    || (leb 48 c && leb c 57)
    || c == 46
    || c == 45
    || c == 95

abbrev all_owner_chars : Text → Bool
all_owner_chars [] = true
all_owner_chars (c ∷ cs) = is_owner_char c && all_owner_chars cs

unfoldable pub validate_owner : Text → Fallible (Unit {0})
validate_owner owner =
    if length owner == 0 || ltb 255 (length owner)
    then err invalid_config
    else if not (all_owner_chars owner)
    then err invalid_config
    else ok tt

abbrev any_unspecified : List IpAddr → Bool
any_unspecified [] = false
any_unspecified (ip ∷ ips) = is_unspecified ip || any_unspecified ips

module _ {D : Type 0} where
  abbrev foreign_snapshot : BackendKind → ResourceId → Option (PlatformSnapshot D) → Bool
  foreign_snapshot kind resource none = false
  foreign_snapshot kind resource (some s) =
      not (same_backend s.backend kind) || not (same_resource s.resource resource)

  abbrev check_applied :
      (PlatformSnapshot D → Fallible (Unit {0})) → Option (PlatformSnapshot D) → Fallible (Unit {0})
  check_applied snapshot_valid none = ok tt
  check_applied snapshot_valid (some s) = snapshot_valid s

abbrev corrupt_if_failed : Fallible (Unit {0}) → Fallible (Unit {0})
corrupt_if_failed (ok u) = ok tt
corrupt_if_failed (err e) = err journal_corrupt

module _ {D I : Type 0} (snapshot_valid : PlatformSnapshot D → Fallible (Unit {0})) where
  abbrev mismatched : JournalRecord D I → Bool
  mismatched x =
      not (same_backend x.backend x.before.backend)
      || not (same_backend x.backend x.identity.backend)
      || not (same_resource x.resource x.before.resource)
      || not (same_resource x.resource x.identity.resource)
      || foreign_snapshot x.backend x.resource x.applied

  unfoldable pub validate_record : JournalRecord D I → Fallible (Unit {0})
  validate_record x =
      if any_unspecified x.desired.nameservers
      then err journal_corrupt
      else corrupt_if_failed (validate_owner x.owner) >>= λ _.
          if is_applied x.phase && not (is_some x.applied)
          then err journal_corrupt
          else if mismatched x
          then err journal_corrupt
          else snapshot_valid x.before >>= λ _. check_applied snapshot_valid x.applied

  -- The live state that a record of the journal stands for.
  abbrev state_of : Phase → LiveState D I
  state_of prepared = unmutated
  state_of applied = committed

  -- The platform's check of the snapshots of a record gave this error.
  abbrev pub SnapshotRefused : JournalRecord D I → Error → Type 0
  SnapshotRefused x e =
      (snapshot_valid x.before ≡ err e) ⊎ (check_applied snapshot_valid x.applied ≡ err e)

  abbrev pub ValidPost : JournalRecord D I → Fallible (Unit {0}) → Type 0
  ValidPost x (ok u) =
      (bound x ≡ true)
      × (backed (state_of x.phase) x ≡ true)
      × (foreign_snapshot x.backend x.resource x.applied ≡ false)
      × (leb 1 (length x.owner) && leb (length x.owner) 255 && all_owner_chars x.owner ≡ true)
      × (any_unspecified x.desired.nameservers ≡ false)
      × (snapshot_valid x.before ≡ ok tt)
      × (check_applied snapshot_valid x.applied ≡ ok tt)
  ValidPost x (err e) = (e ≡ journal_corrupt) ⊎ SnapshotRefused x e

  -- A record that `validate_record` accepts has the identity of its resource, an Applied one has its
  -- snapshot, so that the record can back the live state that its phase stands for, the applied
  -- snapshot is of the record's own backend and resource, the owner has between 1 and 255 characters,
  -- all of them allowed, no name server is unspecified, and the platform's check accepts both
  -- snapshots. A refusal is `JournalCorrupt`, or the error of the platform's check of one of the two.
  pub validate_record-Valid : (x : JournalRecord D I) → ValidPost x (validate_record x)
  unfolding validate_record validate_owner
  validate_record-Valid x = ground (arith, text_eq_comm x.resource.text x.identity.resource.text)
