-- ===== src/Tx.antt =====
-- Transaction programs. Every call that the engine makes on the backend, the journal, the locks
-- and the fault hook (fault.rs) is a `Call`; a program asks one call after another and goes on
-- from the reply. The replies are free: other processes, failing disks and a changing operating
-- system are whatever the environment answers.
pub mod History
pub mod Logic
use osdns.Prelude.{ℕ, Bool, List}
use osdns.Error.{ResourceId, Error, Result, ok, err, Fallible}
use osdns.Platform.{
  ResourceIdentity, PlatformSnapshot, ResourceStatus, BoundObservation, MutationAttempt,
  NormalizedConfig, DnsScope,
}
use osdns.Journal.{JournalRecord}

-- fault.rs
pub data TxPoint : Type 0 where
  after_validate after_resolve after_lock after_recovery after_capture after_noop_decision
        after_prepared after_apply after_readback after_verify after_applied after_update_resolve
        after_update_capture after_update_noop_check after_update_prepared after_update_apply
        after_update_readback after_update_verify after_update_applied after_restore_readback
        after_restore_restore after_restore_journal after_recovery_readback after_recovery_restore
        after_recovery_journal :
      TxPoint

pub data Call (D I : Type 0) : Type 0 where
  call_status : ResourceIdentity I → Call D I
  call_readback : ResourceId → Call D I
  call_capture : ResourceId → Call D I
  call_observe : ResourceId → Call D I
  call_apply_bound : ResourceIdentity I → PlatformSnapshot D → NormalizedConfig → Call D I
  call_restore_bound : ResourceIdentity I → PlatformSnapshot D → PlatformSnapshot D → Call D I
  call_write : JournalRecord D I → Call D I
  call_remove : ℕ → ResourceId → Call D I
  call_records : Call D I
  call_fire : TxPoint → Call D I
  call_suppress : PlatformSnapshot D → Call D I
  call_new_lease_id : Call D I
  call_validate_plan : DnsScope → NormalizedConfig → Call D I
  call_resolve_resources : DnsScope → NormalizedConfig → Call D I
  call_try_acquire : ResourceId → Call D I
  call_release : ResourceId → Call D I
  call_acquire : ResourceId → Call D I
  call_unreachable : Call D I
  call_register : ResourceId → Call D I
  call_unregister : ResourceId → Call D I
  call_is_active : ResourceId → Call D I
  call_lock_token : ResourceId → Call D I
  call_unlock_token : ResourceId → Call D I
  call_ensure_watch : Call D I
  call_release_watch : Call D I
  call_rescan : Call D I

-- `try_acquire` answers whether it holds the lock. `call_unreachable` is a `panic` of the code.
abbrev pub Reply : {D I : Type 0} → Call D I → Type 0
Reply (call_status i) = Fallible ResourceStatus
Reply {D} (call_readback r) = Fallible (PlatformSnapshot D)
Reply {D} (call_capture r) = Fallible (PlatformSnapshot D)
Reply {D} {I} (call_observe r) = Fallible (BoundObservation D I)
Reply {D} (call_apply_bound i s p) = MutationAttempt D
Reply {D} (call_restore_bound i s t) = MutationAttempt D
Reply (call_write r) = Fallible (Unit {0})
Reply (call_remove l r) = Fallible (Unit {0})
Reply {D} {I} call_records = Fallible (List (JournalRecord D I))
Reply (call_fire p) = Fallible (Unit {0})
Reply (call_suppress s) = Unit {0}
Reply call_new_lease_id = ℕ
Reply (call_validate_plan s p) = Fallible (Unit {0})
Reply (call_resolve_resources s p) = Fallible (List ResourceId)
Reply (call_try_acquire r) = Fallible Bool
Reply (call_release r) = Unit {0}
Reply (call_acquire r) = Fallible (Unit {0})
Reply call_unreachable = Unit {0}
Reply (call_register r) = Unit {0}
Reply (call_unregister r) = Unit {0}
Reply (call_is_active r) = Bool
Reply (call_lock_token r) = Unit {0}
Reply (call_unlock_token r) = Unit {0}
Reply call_ensure_watch = Fallible (Unit {0})
Reply call_release_watch = Unit {0}
Reply call_rescan = Unit {0}

pub record Event (D I : Type 0) : Type 0 where
  pub call : Call D I
  pub reply : Reply call

-- What happened so far, the latest first.
abbrev pub History : Type 0 → Type 0 → Type 0
History D I = List (Event D I)

pub data Tx (D I : Type 0) (A : Type 0) : Type 0 where
  ret : A → Tx D I A
  ask : (c : Call D I) → (Reply c → Tx D I A) → Tx D I A

module _ {D I : Type 0} where
  infixl 5 ◌>>=◌ ◌>>◌
  abbrev pub ◌>>=◌ : {A B : Type 0} → Tx D I A → (A → Tx D I B) → Tx D I B
  ret a >>= f = f a
  ask c k >>= f = ask c (λ r. k r >>= f)

  abbrev pub ◌>>◌ : {A B : Type 0} → Tx D I A → Tx D I B → Tx D I B
  m >> n = m >>= λ _. n

  -- Rust's `?`: an error ends the function with `fail` of it.
  abbrev pub or_fail :
      {A B : Type 0} → (Error → B) → Tx D I (Fallible A) → (A → Tx D I B) → Tx D I B
  or_fail fail m k = m >>= λ r. elim r [ ok a ↦ k a | err e ↦ ret (fail e) ]

  abbrev pub status : ResourceIdentity I → Tx D I (Fallible ResourceStatus)
  status i = ask (call_status i) ret

  abbrev pub readback : ResourceId → Tx D I (Fallible (PlatformSnapshot D))
  readback r = ask (call_readback r) ret

  abbrev pub capture : ResourceId → Tx D I (Fallible (PlatformSnapshot D))
  capture r = ask (call_capture r) ret

  abbrev pub observe : ResourceId → Tx D I (Fallible (BoundObservation D I))
  observe r = ask (call_observe r) ret

  abbrev pub apply_bound :
      ResourceIdentity I → PlatformSnapshot D → NormalizedConfig → Tx D I (MutationAttempt D)
  apply_bound i expected plan = ask (call_apply_bound i expected plan) ret

  abbrev pub restore_bound :
      ResourceIdentity I → PlatformSnapshot D → PlatformSnapshot D → Tx D I (MutationAttempt D)
  restore_bound i expected target = ask (call_restore_bound i expected target) ret

  abbrev pub write : JournalRecord D I → Tx D I (Fallible (Unit {0}))
  write r = ask (call_write r) ret

  abbrev pub remove : ℕ → ResourceId → Tx D I (Fallible (Unit {0}))
  remove l r = ask (call_remove l r) ret

  abbrev pub fire : TxPoint → Tx D I (Fallible (Unit {0}))
  fire p = ask (call_fire p) ret

  abbrev pub suppress : PlatformSnapshot D → Tx D I (Unit {0})
  suppress s = ask (call_suppress s) ret

  abbrev pub unreachable : Tx D I (Unit {0})
  unreachable = ask call_unreachable ret
