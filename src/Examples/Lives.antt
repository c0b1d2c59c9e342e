-- ===== src/Examples/Lives.antt =====
-- The theorems on live records, applied to concrete states.
use osdns.Prelude.{ℕ, refl, none, some}
use osdns.Text.{text_eq}
use osdns.Journal.{Phase, JournalRecord}
use osdns.Tx.{History, call_write}
use osdns.Tx.Logic.{Safe}
use osdns.Engine.Monitor.{monitor}
use osdns.Engine.Live.{
  LiveState, LiveRecord, committed, prepared, compensating, resolve_live, commit_verified,
  persist_live, prepare_live,
}
use osdns.Engine.Live.Synced.{
  SyncedPost, PersistedPost, PreparePost, persist_live-Safe, prepare_live-Safe,
}
use osdns.Engine.Live.Committed.{committing, CommittedPost, commit_verified-Committed}
use osdns.Engine.Live.Resolved.{resolve_live-IsSynced}
use osdns.Examples.{pending_back, snapshot, backend, world, entry, event, mutated}

abbrev pub live_of : LiveState ℕ ℕ → JournalRecord ℕ ℕ → LiveRecord ℕ ℕ
live_of s x = record { entry = x; state = s }

-- A compensation that could not finish is due.
abbrev pub compensating_live : LiveRecord ℕ ℕ
compensating_live =
    live_of (compensating pending_back (entry Phase.prepared none))
      (entry Phase.prepared (some (snapshot 1)))

abbrev pub compensating_journaled : History ℕ ℕ
compensating_journaled = event (call_write (entry Phase.prepared (some (snapshot 1)))) mutated

resolve_live-IsSynced_example :
    Safe world
      (monitor backend)
      SyncedPost
      (resolve_live backend compensating_live none)
      compensating_journaled
unfolding text_eq
resolve_live-IsSynced_example =
    resolve_live-IsSynced backend world compensating_live none compensating_journaled
      (record { kept = refl; shape = refl })

abbrev pub verified_live : LiveRecord ℕ ℕ
verified_live = live_of prepared (entry Phase.prepared none)

commit_verified-Committed_example :
    Safe world
      (committing backend (record { proof = some (snapshot 1); observed = snapshot 1 }))
      (CommittedPost backend
        (record { proof = some (snapshot 1); observed = snapshot 1 })
        verified_live.entry)
      (commit_verified backend verified_live
        (record { proof = some (snapshot 1); observed = snapshot 1 }))
      mutated
unfolding text_eq
commit_verified-Committed_example =
    commit_verified-Committed backend (record { proof = some (snapshot 1); observed = snapshot 1 })
      world verified_live mutated refl

abbrev pub committed_live : LiveRecord ℕ ℕ
committed_live = live_of committed (entry Phase.applied (some (snapshot 1)))

abbrev pub committed_journaled : History ℕ ℕ
committed_journaled = event (call_write (entry Phase.applied (some (snapshot 1)))) mutated

persist_live-Safe_example :
    Safe world
      (monitor backend)
      (PersistedPost (entry Phase.prepared none))
      (persist_live committed_live (entry Phase.prepared none))
      committed_journaled
unfolding text_eq
persist_live-Safe_example =
    persist_live-Safe backend world committed_live (entry Phase.prepared none) committed_journaled
      refl

prepare_live-Safe_example :
    Safe world
      (monitor backend)
      (PreparePost backend world committed_live (entry Phase.prepared none))
      (prepare_live committed_live (entry Phase.prepared none))
      committed_journaled
unfolding text_eq
prepare_live-Safe_example =
    prepare_live-Safe backend world committed_live (entry Phase.prepared none) committed_journaled
      refl refl refl
