-- ===== src/Engine/Reconcile.antt =====
-- reconciliation.rs: `reconcile_pass` and `apply_overlay`, run with the lease token of the resource
-- held. What a pass does to the reconciler comes back in its state.
pub mod Overlay
pub mod Pass
use osdns.Prelude.{ℕ, Bool, true, false, Option, none, some, [], not, ◌&&◌, if◌then◌else◌}
use osdns.Error.{
  ResourceId, Error, Result, ok, err, Fallible, is_external_modification, is_resource_gone,
}
use osdns.Platform.{PlatformSnapshot, Backend, VerifiedMutation, owns_current}
use osdns.Journal.{Phase, JournalRecord}
use osdns.Tx.{after_prepared, after_applied, Tx, ret, ◌>>=◌, ◌>>◌, or_fail, readback, remove, fire}
use osdns.Engine.Compensate.{MutationResidue, unchanged, restored, pending}
use osdns.Engine.Mutate.{MutationFailure, reconcile_points, mutate_and_verify}
use osdns.Engine.Live.{
  LiveRecord, LiveState, unmutated, prepared, compensating, Outcome, applied_of, prepare_live,
  resolve_live, commit_verified,
}
use osdns.Reconciler.{BreakerState, breaker_gate}

pub data ReconcileOutcome : Type 0 where
  no_active_lease identity_ambiguous still_ours rebased deferred failed : ReconcileOutcome

-- `IDENTITY_RETRY`, in milliseconds.
abbrev pub identity_retry : ℕ
identity_retry = 5000

-- The live record, and what is kept for its resource: the breaker, the delay of a deferral that the
-- pass asked for, and whether it is pending, is registered as active and has a lease token.
pub record PassState (D I : Type 0) : Type 0 where
  pub live : LiveRecord D I
  pub breaker : BreakerState
  pub postponed : Option ℕ
  pub is_pending : Bool
  pub registered : Bool
  pub has_token : Bool

-- A resource that has no breaker.
abbrev pub idle_breaker : BreakerState
idle_breaker = record { attempts = []; open_until = none }

abbrev pub Passed : Type 0 → Type 0 → Type 0
Passed D I = ReconcileOutcome × PassState D I

abbrev pub is_prepared_state : {D I : Type 0} → LiveState D I → Bool
is_prepared_state prepared = true
is_prepared_state _ = false

module _ {D I : Type 0} where
  -- The state that a failed mutation leaves.
  abbrev pub residual : MutationResidue D → JournalRecord D I → LiveState D I
  residual (pending p) resume = compensating p resume
  residual _ resume = unmutated

  abbrev pub overlaid : JournalRecord D I → PlatformSnapshot D → JournalRecord D I
  overlaid x before = record x { before = before; phase = Phase.prepared; applied = none }

module _ {D : Type 0} (b : Backend D) where
  abbrev pub owned_by : Option (PlatformSnapshot D) → PlatformSnapshot D → Bool
  owned_by none second = false
  owned_by (some applied) second = owns_current b applied second

module _ {D I : Type 0} (b : Backend D) where
  -- After the commit.
  pub finish_overlay : Outcome D I → Tx D I (ReconcileOutcome × LiveRecord D I)
  finish_overlay (err e, live) = ret (failed, live)
  finish_overlay (ok u, live) = do ignored ← fire after_applied; ret (rebased, live)

  pub after_overlay :
      JournalRecord D I
      → Result (VerifiedMutation D) (MutationFailure D)
      → Tx D I (ReconcileOutcome × LiveRecord D I)
  after_overlay resume (ok m) = do
    outcome ← commit_verified b (record { entry = resume; state = prepared }) m
    finish_overlay outcome
  after_overlay resume (err failure) =
      ret (failed, record { entry = resume; state = residual failure.residue resume })

  pub overlay_prepared :
      PlatformSnapshot D
      → JournalRecord D I
      → Outcome D I
      → Tx D I (ReconcileOutcome × LiveRecord D I)
  overlay_prepared expected resume (err e, live) = ret (failed, live)
  overlay_prepared expected resume (ok u, live) =
      or_fail (λ e. (deferred, live)) (fire after_prepared)
        λ _.
          (mutate_and_verify b resume.identity expected resume.desired reconcile_points
            >>= after_overlay resume)

  pub apply_overlay :
      LiveRecord D I
      → PlatformSnapshot D
      → PlatformSnapshot D
      → Tx D I (ReconcileOutcome × LiveRecord D I)
  apply_overlay live expected before = do
    outcome ← prepare_live live (overlaid live.entry before)
    overlay_prepared expected (overlaid live.entry before) outcome

  pub overlay_pass : PassState D I → PlatformSnapshot D → PlatformSnapshot D → Tx D I (Passed D I)
  overlay_pass st expected before = do
    (outcome, live) ← apply_overlay st.live expected before
    ret (outcome, record st { live = live })

  -- The native state is someone else's: it becomes the new base, unless the breaker is open.
  pub rebase_gated : Option ℕ → PassState D I → PlatformSnapshot D → Tx D I (Passed D I)
  rebase_gated (some cooldown) st second =
      ret (deferred, record st { postponed = some cooldown; is_pending = true })
  rebase_gated none st second = overlay_pass st second second

  pub rebase : ℕ → PassState D I → PlatformSnapshot D → Tx D I (Passed D I)
  rebase now st second =
      let gate = breaker_gate now st.breaker in
      rebase_gated gate.0 (record st { breaker = gate.1 }) second

  -- The second reading agrees with the first.
  pub reconcile_stable : ℕ → PassState D I → PlatformSnapshot D → Tx D I (Passed D I)
  reconcile_stable now st second =
      let x = st.live.entry in
      if is_prepared_state st.live.state && not (b.equivalent second x.before)
      then ret (deferred, st)
      else if owned_by b (applied_of st.live) second
      then (if b.matches_desired second x.desired
          then ret (still_ours, st)
          else overlay_pass st second x.before)
      else if b.matches_desired second x.desired
      then ret (deferred, record st { postponed = some identity_retry; is_pending = true })
      else if b.equivalent second x.before
      then overlay_pass st second x.before
      else rebase now st second

  -- `reconciler.remove` drops the pending entry and the breaker.
  unregister_active : PassState D I → PassState D I
  unregister_active st = record st {
    breaker = idle_breaker;
    postponed = none;
    is_pending = false;
    registered = false;
    has_token = false;
  }

  -- A reading that failed.
  pub read_failed : PassState D I → Error → Tx D I (Passed D I)
  read_failed st e =
      if is_resource_gone e
      then (or_fail (λ f. (failed, st)) (remove st.live.entry.lease_id st.live.entry.resource)
          λ _. ret (no_active_lease, unregister_active st))
      else ret (failed, st)

  pub second_read :
      ℕ → PassState D I → PlatformSnapshot D → Fallible (PlatformSnapshot D) → Tx D I (Passed D I)
  second_read now st first (err e) = read_failed st e
  second_read now st first (ok second) =
      if b.equivalent first second then reconcile_stable now st second else ret (deferred, st)

  pub first_read : ℕ → PassState D I → Fallible (PlatformSnapshot D) → Tx D I (Passed D I)
  first_read now st (err e) = read_failed st e
  first_read now st (ok first) = do
    second ← readback st.live.entry.resource
    second_read now st first second

  pub pass_resolved : ℕ → PassState D I → Fallible (Unit {0}) → Tx D I (Passed D I)
  pass_resolved now st (ok u) = do first ← readback st.live.entry.resource; first_read now st first
  pass_resolved now st (err e) =
      if is_prepared_state st.live.state
      then (readback st.live.entry.resource >>= first_read now st)
      else ret ((if is_external_modification e then deferred else failed), st)

  pub reconcile_pass : ℕ → PassState D I → Tx D I (Passed D I)
  reconcile_pass now st = do
    (r, live) ← resolve_live b st.live none
    pass_resolved now (record st { live = live }) r
