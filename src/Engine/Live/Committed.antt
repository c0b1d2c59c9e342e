-- ===== src/Engine/Live/Committed.antt =====
-- `commit_verified`: when a verified mutation becomes the journal's Applied record.
use osdns.Prelude.{◌≡◌, Bool, true, false, Option, none, some, ◌&&◌, arith}
use osdns.Text.{text_eq_refl}
use osdns.Error.{ok, err}
use osdns.Platform.{PlatformSnapshot, Backend, VerifiedMutation, persist, owns_current}
use osdns.Journal.{applied, JournalRecord}
use osdns.Tx.{History, call_status, call_readback, call_write}
use osdns.Tx.History.{last_read, last_status, journaled}
use osdns.Tx.Logic.{Oracle, Permit, Post, Safe}
use osdns.Engine.Monitor.{found_same}
use osdns.Engine.Live.{
  LiveRecord, committed, verified, Outcome, commit_current, current_or_read, resolve_state,
  resolve_from, resolve_live, commit_verified,
}
use osdns.Engine.Live.Synced.{bound}

module _ {D : Type 0} (b : Backend D) (m : VerifiedMutation D) where
  -- The latest read is a state that the verified mutation owns.
  abbrev pub read_owned : Option (PlatformSnapshot D) → Bool
  read_owned none = false
  read_owned (some current) = owns_current b (persist m) current

module _ {D I : Type 0} (b : Backend D) (m : VerifiedMutation D) where
  -- A record is published only while the latest read, with no write since, is owned by the mutation,
  -- and the incarnation was just found unchanged. Otherwise only checks and reads are asked.
  abbrev pub committing : Permit D I
  committing h (call_write x) =
      found_same (last_status x.resource h) && read_owned b m (last_read x.resource h)
  committing h (call_status i) = true
  committing h (call_readback r) = true
  committing h c = false

  abbrev pub applied_as : JournalRecord D I → JournalRecord D I
  applied_as x = record x { phase = applied; applied = some (persist m) }

  abbrev pub CommittedPost : JournalRecord D I → Post D I (Outcome D I)
  CommittedPost x g (ok u, live) =
      (live ≡ record { entry = applied_as x; state = committed })
      × (journaled x.resource g ≡ some (applied_as x))
  CommittedPost x g (err e, live) = live ≡ record { entry = x; state = verified m }

  -- For a record whose identity names its resource, `commit_verified` mutates nothing, and it
  -- publishes only while the latest read of the resource, with no write since, is a state that the
  -- verified mutation owns and the latest check found the incarnation unchanged. `Ok` means that the
  -- live record is `Committed`, with the phase Applied and the snapshot that the mutation persists,
  -- and that the journal holds exactly this record. After an error the record is as it was, in state
  -- `Verified`.
  pub commit_verified-Committed :
      (o : Oracle D I) (live : LiveRecord D I) (h : History D I)
      → bound live.entry ≡ true
      → Safe o committing (CommittedPost live.entry) (commit_verified b live m) h
  unfolding commit_verified resolve_live resolve_from resolve_state current_or_read commit_current
  commit_verified-Committed o live h v = ground (arith, text_eq_refl live.entry.resource.text)
