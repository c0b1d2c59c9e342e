-- ===== src/Examples/Leases.antt =====
-- The theorems on whole transactions, on restore and on recovery, applied to concrete states.
use osdns.Prelude.{ℕ, ◌==◌, refl, true, none, some, [], ◌∷◌}
use osdns.Text.{text_eq, list_eq}
use osdns.Platform.{Backend, ip_eq, suffix_eq, option_bool_eq, plan_eq}
use osdns.Journal.{Phase}
use osdns.Tx.Logic.{Oracle, Safe}
use osdns.Error.{ok}
use osdns.Engine.Monitor.{monitor}
use osdns.Engine.Rules.{rules}
use osdns.Engine.Restore.{restore_live_state}
use osdns.Engine.Restore.Ended.{restore_live_state-Safe}
use osdns.Engine.Restore.Reason.{RestorePost}
use osdns.Engine.Recover.{recover_stale, recover_record, recover_for_resource, abandon_journal}
use osdns.Tx.{call_records}
use osdns.Engine.Recover.Stale.{StalePost, recover_stale-Safe}
use osdns.Engine.Recover.Blocked.{UnblockedPost, recover_for_resource-Safe}
use osdns.Engine.Recover.Abandoned.{abandon_permit, UnlockedPost, abandon_journal-Safe}
use osdns.Engine.Recover.Cleared.{RecoverPost, recover_record-Safe}
use osdns.Engine.Update.{transact_update}
use osdns.Engine.Update.Resolved.{UpdatePost}
use osdns.Engine.Update.Updated.{transact_update-Safe}
use osdns.Engine.Reconcile.{PassState, apply_overlay, reconcile_pass}
use osdns.Engine.Reconcile.Overlay.{OverlayPost, apply_overlay-Safe}
use osdns.Engine.Reconcile.Pass.{PassPost, reconcile_pass-Safe}
use osdns.Engine.Transact.{persist_from, transact_with_locks}
use osdns.Engine.Transact.Announced.{PersistPost, persist_from-Safe}
use osdns.Engine.Transact.Applied.{LeasePost, transact_with_locks-Safe}
use osdns.Examples.{eth0, plan, snapshot, identity, backend, world, entry}
use osdns.Examples.Lives.{committed_live, committed_journaled}

restore_live_state-Safe_example :
    Safe world
      (monitor backend)
      (RestorePost backend)
      (restore_live_state backend committed_live)
      committed_journaled
unfolding text_eq
restore_live_state-Safe_example =
    restore_live_state-Safe backend world committed_live committed_journaled refl

recover_record-Safe_example :
    Safe world
      (monitor backend)
      (RecoverPost backend true (entry Phase.applied (some (snapshot 1))))
      (recover_record backend (entry Phase.applied (some (snapshot 1))))
      committed_journaled
unfolding text_eq
recover_record-Safe_example =
    recover_record-Safe backend world true (entry Phase.applied (some (snapshot 1)))
      committed_journaled refl refl

persist_from-Safe_example :
    Safe world
      (monitor backend)
      (PersistPost backend world plan (entry Phase.prepared none ∷ []))
      (persist_from [] (entry Phase.prepared none ∷ []))
      []
unfolding text_eq list_eq ip_eq suffix_eq plan_eq option_bool_eq
persist_from-Safe_example =
    persist_from-Safe backend world plan [] (entry Phase.prepared none ∷ []) [] (refl, tt)
      (refl, tt) tt

transact_with_locks-Safe_example :
    Safe world
      (monitor backend)
      LeasePost
      (transact_with_locks backend [] (eth0 ∷ []) plan (snapshot 0 ∷ []) (identity ∷ []))
      []
unfolding text_eq
transact_with_locks-Safe_example =
    transact_with_locks-Safe backend world plan [] (eth0 ∷ []) (snapshot 0 ∷ []) (identity ∷ []) []
      refl

recover_for_resource-Safe_example :
    Safe world
      (monitor backend)
      (UnblockedPost backend [] (entry Phase.applied (some (snapshot 1))))
      (recover_for_resource backend [] (entry Phase.applied (some (snapshot 1))))
      committed_journaled
unfolding text_eq
recover_for_resource-Safe_example =
    recover_for_resource-Safe backend world [] (entry Phase.applied (some (snapshot 1)))
      committed_journaled refl

-- The world, where the journal lists one record.
abbrev listing : Oracle ℕ ℕ
listing h call_records = ok (entry Phase.applied (some (snapshot 1)) ∷ [])
listing h c = world h c

abandon_journal-Safe_example :
    Safe listing
      (abandon_permit [] eth0)
      (UnlockedPost eth0)
      (abandon_journal [] eth0)
      committed_journaled
abandon_journal-Safe_example = abandon_journal-Safe listing [] eth0 committed_journaled refl

-- A backend on which only state 2 is the plan's: the update is not a no-op.
abbrev other_wanted : Backend ℕ
other_wanted = record backend { matches_desired = λ s p. s.payload == 2 }

transact_update-Safe_example :
    Safe world
      (monitor other_wanted)
      UpdatePost
      (transact_update other_wanted (committed_live ∷ []) plan)
      committed_journaled
unfolding text_eq
transact_update-Safe_example =
    transact_update-Safe other_wanted world (committed_live ∷ []) plan committed_journaled
      (refl, tt)

apply_overlay-Safe_example :
    Safe world
      (monitor backend)
      OverlayPost
      (apply_overlay backend committed_live (snapshot 0) (snapshot 0))
      committed_journaled
unfolding text_eq
apply_overlay-Safe_example =
    apply_overlay-Safe backend world committed_live (snapshot 0) (snapshot 0) committed_journaled
      refl refl

abbrev passing : PassState ℕ ℕ
passing = record {
  live = committed_live;
  breaker = record { attempts = []; open_until = none };
  postponed = none;
  is_pending = true;
  registered = true;
  has_token = true;
}

reconcile_pass-Safe_example :
    Safe world (monitor backend) PassPost (reconcile_pass backend 1000 passing) committed_journaled
unfolding text_eq
reconcile_pass-Safe_example =
    reconcile_pass-Safe backend world 1000 passing committed_journaled refl refl

recover_stale-Safe_example :
    Safe listing
      (rules backend)
      (StalePost backend listing [] (listing committed_journaled call_records) (
        record { call = call_records; reply = listing committed_journaled call_records }
        ∷ committed_journaled))
      (recover_stale backend [])
      committed_journaled
unfolding text_eq
recover_stale-Safe_example = recover_stale-Safe backend listing [] committed_journaled refl
