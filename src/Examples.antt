-- ===== src/Examples.antt =====
-- A concrete backend, a simulated world and concrete records, on which the theorems are applied.
pub mod Reconciling
pub mod Configs
pub mod Mutations
pub mod Lives
pub mod Leases
pub mod Ending
pub mod Texts
pub mod Bounds
use osdns.Prelude.{ℕ, refl, true, Option, none, some, [], ◌∷◌, ◌==◌}
use osdns.Text.{text_eq, list_eq}
use osdns.Error.{BackendKind, ResourceId, ok}
use osdns.Platform.{
  v4, NormalizedConfig, PlatformSnapshot, ResourceIdentity, same, performed, durable, Backend,
  ip_eq, suffix_eq, option_bool_eq, plan_eq,
}
use osdns.Journal.{Phase, JournalRecord}
use osdns.Tx.{
  Call, History, call_status, call_readback, call_capture, call_observe, call_apply_bound,
  call_restore_bound, call_write, call_remove, call_records, call_fire, call_suppress,
  call_new_lease_id, call_validate_plan, call_resolve_resources, call_try_acquire, call_release,
  call_acquire, call_unreachable, call_register, call_unregister, call_is_active, call_lock_token,
  call_unlock_token, call_ensure_watch, call_release_watch, call_rescan,
}
use osdns.Tx.Logic.{Oracle, Safe}
use osdns.Engine.Monitor.{monitor}
use osdns.Engine.Compensate.{PendingRollback, compensate, rollback_proven}
use osdns.Engine.Compensate.Guard.{
  CompensatePost, compensate-Safe, RollbackPost, rollback_proven-Safe,
}
use osdns.Engine.Mutate.{initial_points, mutate_and_verify}
use osdns.Engine.Mutate.Verified.{MutatePost, mutate_and_verify-Safe}
use osdns.Engine.Live.{
  LiveState, LiveRecord, committed, prepared, compensating, resolve_live, commit_verified,
  persist_live, prepare_live,
}
use osdns.Engine.Live.Synced.{SyncedPost, PreparePost, persist_live-Safe, prepare_live-Safe}
use osdns.Engine.Live.Resolved.{resolve_live-IsSynced, commit_verified-Safe}
use osdns.Engine.Restore.{restore_live_state}
use osdns.Engine.Restore.Ended.{restore_live_state-Safe}
use osdns.Engine.Restore.Reason.{RestorePost}
use osdns.Engine.Recover.{recover_record, recover_for_resource, abandon_journal}
use osdns.Engine.Recover.Blocked.{UnblockedPost, recover_for_resource-Safe}
use osdns.Engine.Recover.Abandoned.{abandon_permit, UnlockedPost, abandon_journal-Safe}
use osdns.Engine.Recover.Cleared.{RecoverPost, recover_record-Safe}
use osdns.Engine.Update.{transact_update}
use osdns.Engine.Update.Resolved.{UpdatePost}
use osdns.Engine.Update.Updated.{transact_update-Safe}
use osdns.Engine.Reconcile.{PassState, apply_overlay, reconcile_pass}
use osdns.Engine.Reconcile.Overlay.{OverlayPost, apply_overlay-Safe}
use osdns.Engine.Reconcile.Pass.{PassPost, reconcile_pass-Safe}
use osdns.Engine.Transact.{persist_from, transact_with_locks}
use osdns.Engine.Transact.Announced.{PersistPost, persist_from-Safe}
use osdns.Engine.Transact.Applied.{LeasePost, transact_with_locks-Safe}

abbrev pub eth0 : ResourceId
eth0 = record { text = 101 ∷ 48 ∷ [] }

abbrev pub plan : NormalizedConfig
plan = record {
  nameservers = v4 (1 ∷ 1 ∷ 1 ∷ 1 ∷ []) ∷ [];
  search_domains = [];
  routing_domains = [];
  default_route = none;
}

abbrev pub snapshot : ℕ → PlatformSnapshot ℕ
snapshot n = record { backend = BackendKind.systemd_resolved; resource = eth0; payload = n }

abbrev pub identity : ResourceIdentity ℕ
identity = record { backend = BackendKind.systemd_resolved; resource = eth0; payload = 7 }

-- Snapshot 0 is the state before, 1 the plan's.
abbrev pub backend : Backend ℕ
backend = record {
  kind = BackendKind.systemd_resolved;
  ownership_identity = durable;
  equivalent = λ s t. s.payload == t.payload;
  proves_current = λ s t. s.payload == t.payload;
  matches_desired = λ s p. s.payload == 1;
}

-- What the interface holds after the history.
abbrev pub held_by : Call ℕ ℕ → ℕ → ℕ
held_by (call_apply_bound i s p) n = 1
held_by (call_restore_bound i s t) n = t.payload
held_by c n = n

abbrev pub held : History ℕ ℕ → ℕ
held [] = 0
held (e ∷ h) = held_by e.call (held h)

-- Everything succeeds.
abbrev pub world : Oracle ℕ ℕ
world h (call_status i) = ok same
world h (call_readback r) = ok (snapshot (held h))
world h (call_capture r) = ok (snapshot (held h))
world h (call_observe r) =
    ok (record { identity = record identity { resource = r }; snapshot = snapshot (held h) })
world h (call_apply_bound i s p) = performed (some (snapshot 1))
world h (call_restore_bound i s t) = performed (some t)
world h (call_write x) = ok tt
world h (call_remove l r) = ok tt
world h call_records = ok []
world h (call_fire p) = ok tt
world h (call_suppress s) = tt
world h call_new_lease_id = 5
world h (call_validate_plan s p) = ok tt
world h (call_resolve_resources s p) = ok (eth0 ∷ [])
world h (call_try_acquire r) = ok true
world h (call_release r) = tt
world h (call_acquire r) = ok tt
world h call_unreachable = tt
world h (call_register r) = tt
world h (call_unregister r) = tt
world h (call_is_active r) = true
world h (call_lock_token r) = tt
world h (call_unlock_token r) = tt
world h call_ensure_watch = ok tt
world h call_release_watch = tt
world h call_rescan = tt

-- The record of a lease, before and after its mutation.
abbrev pub entry : Phase → Option (PlatformSnapshot ℕ) → JournalRecord ℕ ℕ
entry phase applied = record {
  owner = [];
  lease_id = 5;
  resource = eth0;
  backend = BackendKind.systemd_resolved;
  identity = identity;
  phase = phase;
  before = snapshot 0;
  desired = plan;
  applied = applied;
}

abbrev pub event : Call ℕ ℕ → History ℕ ℕ → History ℕ ℕ
event c h = record { call = c; reply = world h c } ∷ h

-- The record was journaled.
abbrev pub announced : History ℕ ℕ
announced = event (call_write (entry Phase.prepared none)) []

-- And the plan applied.
abbrev pub mutated : History ℕ ℕ
mutated = event (call_apply_bound identity (snapshot 0) plan) announced

abbrev pub pending_back : PendingRollback ℕ
pending_back = record { evidence = some (snapshot 1); target = snapshot 0 }
