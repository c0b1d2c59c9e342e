-- ===== src/Tx/History.antt =====
-- What a history of calls and replies tells about one resource.
use osdns.Prelude.{
  ℕ, ◌==◌, ◌&&◌, Bool, true, false, Option, none, some, List, [], ◌∷◌, if◌then◌else◌,
}
use osdns.Text.{text_eq}
use osdns.Error.{ResourceId, ok, err, is_resource_gone}
use osdns.Platform.{PlatformSnapshot, ResourceStatus}
use osdns.Journal.{JournalRecord}
use osdns.Tx.{
  Call, call_status, call_readback, call_capture, call_apply_bound, call_restore_bound, call_write,
  call_remove, call_acquire, call_try_acquire, call_release, Reply, History,
}

abbrev pub same_resource : ResourceId → ResourceId → Bool
same_resource r s = text_eq r.text s.text

pub data JournalEvent (D I : Type 0) : Type 0 where
  wrote : JournalRecord D I → JournalEvent D I
  lost : ResourceId → JournalEvent D I
  cleared : ℕ → ResourceId → JournalEvent D I

module _ {D I : Type 0} where
  -- The snapshot that the latest read of `r` gave, unless `r` was written since.
  abbrev read_by :
      ResourceId
      → (c : Call D I) → Reply c
      → Option (PlatformSnapshot D)
      → Option (PlatformSnapshot D)
  read_by r (call_readback s) (ok x) old = if same_resource s r then some x else old
  read_by r (call_capture s) (ok x) old = if same_resource s r then some x else old
  read_by r (call_apply_bound i x p) reply old = if same_resource i.resource r then none else old
  read_by r (call_restore_bound i x t) reply old = if same_resource i.resource r then none else old
  read_by r c reply old = old

  abbrev pub last_read : ResourceId → History D I → Option (PlatformSnapshot D)
  last_read r [] = none
  last_read r (e ∷ h) = read_by r e.call e.reply (last_read r h)

  -- What the latest check of the incarnation of `r` said.
  abbrev status_by :
      ResourceId → (c : Call D I) → Reply c → Option ResourceStatus → Option ResourceStatus
  status_by r (call_status i) (ok s) old = if same_resource i.resource r then some s else old
  status_by r (call_status i) (err e) old = if same_resource i.resource r then none else old
  status_by r c reply old = old

  abbrev pub last_status : ResourceId → History D I → Option ResourceStatus
  last_status r [] = none
  last_status r (e ∷ h) = status_by r e.call e.reply (last_status r h)

  -- Whether the latest read of `r` found that the resource is gone.
  abbrev gone_by : ResourceId → (c : Call D I) → Reply c → Bool → Bool
  gone_by r (call_readback s) (ok x) old = if same_resource s r then false else old
  gone_by r (call_readback s) (err e) old = if same_resource s r then is_resource_gone e else old
  gone_by r (call_capture s) (ok x) old = if same_resource s r then false else old
  gone_by r (call_capture s) (err e) old = if same_resource s r then is_resource_gone e else old
  gone_by r c reply old = old

  abbrev pub read_gone : ResourceId → History D I → Bool
  read_gone r [] = false
  read_gone r (e ∷ h) = gone_by r e.call e.reply (read_gone r h)

  -- What happened to the journal: a record certainly published or removed, or an entry left
  -- open by a failure.
  abbrev journal_by : (c : Call D I) → Reply c → List (JournalEvent D I) → List (JournalEvent D I)
  journal_by (call_write x) (ok u) old = wrote x ∷ old
  journal_by (call_write x) (err e) old = lost x.resource ∷ old
  journal_by (call_remove l s) (ok u) old = cleared l s ∷ old
  journal_by (call_remove l s) (err e) old = lost s ∷ old
  journal_by c reply old = old

  abbrev pub journal_of : History D I → List (JournalEvent D I)
  journal_of [] = []
  journal_of (e ∷ h) = journal_by e.call e.reply (journal_of h)

  -- A record's file is found by its lease id and its resource: a removal for another lease leaves it.
  abbrev unless_removed : ℕ → Option (JournalRecord D I) → Option (JournalRecord D I)
  unless_removed l none = none
  unless_removed l (some x) = if x.lease_id == l then none else some x

  abbrev pub journaled_in : ResourceId → List (JournalEvent D I) → Option (JournalRecord D I)
  journaled_in r [] = none
  journaled_in r (wrote x ∷ js) = if same_resource x.resource r then some x else journaled_in r js
  journaled_in r (lost s ∷ js) = if same_resource s r then none else journaled_in r js
  journaled_in r (cleared l s ∷ js) =
      if same_resource s r then unless_removed l (journaled_in r js) else journaled_in r js

  -- The record that is certainly in the journal for `r`.
  abbrev pub journaled : ResourceId → History D I → Option (JournalRecord D I)
  journaled r h = journaled_in r (journal_of h)

  -- The latest event of the journal is that this record was removed, by its lease id and resource.
  abbrev pub cleared_last : JournalRecord D I → List (JournalEvent D I) → Bool
  cleared_last x (cleared l s ∷ js) = l == x.lease_id && same_resource s x.resource
  cleared_last x _ = false

  abbrev locked_by : ResourceId → (c : Call D I) → Reply c → Bool → Bool
  locked_by r (call_acquire s) (ok u) old = if same_resource s r then true else old
  locked_by r (call_try_acquire s) (ok true) old = if same_resource s r then true else old
  locked_by r (call_release s) reply old = if same_resource s r then false else old
  locked_by r c reply old = old

  -- The lock of `r` is held.
  abbrev pub locked : ResourceId → History D I → Bool
  locked r [] = false
  locked r (e ∷ h) = locked_by r e.call e.reply (locked r h)
