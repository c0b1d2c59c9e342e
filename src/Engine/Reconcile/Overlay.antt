-- ===== src/Engine/Reconcile/Overlay.antt =====
-- `apply_overlay`: the overlay is journaled, applied and finalized.
use osdns.Prelude.{◌≡◌, refl, sym, subst, ap, ◌∙◌, Bool, true, false, some, arith}
use osdns.Text.{text_eq_refl}
use osdns.Error.{Result, Fallible, ok, err}
use osdns.Platform.{Backend, PlatformSnapshot, VerifiedMutation, plan_eq_refl}
use osdns.Journal.{JournalRecord}
use osdns.Tx.{History, fire, after_prepared}
use osdns.Tx.History.{journal_of, journaled, journaled_in}
use osdns.Tx.Logic.{Oracle, Post, Safe, Safe-bind, Safe-or_fail}
use osdns.Engine.Monitor.{monitor, announces, is_prepared}
use osdns.Engine.Compensate.{MutationResidue, unchanged, restored, pending}
use osdns.Engine.Mutate.{MutationFailure, reconcile_points}
use osdns.Engine.Mutate.Verified.{MutatePost, mutate_and_verify-Safe}
use osdns.Engine.Live.{LiveRecord, LiveState, committed, repair, verified, prepared, Outcome}
use osdns.Engine.Live.Synced.{
  IsSynced, Kept, shaped, bound, quiet, unrepaired, SyncedPost, PreparePost, prepare_live-Safe,
}
use osdns.Engine.Live.Resolved.{commit_verified-Safe}
use osdns.Engine.Restore.Reason.{bound_eq, shaped-bound}
use osdns.Engine.Reconcile.{
  ReconcileOutcome, no_active_lease, rebased, deferred, residual, overlaid, finish_overlay,
  after_overlay, overlay_prepared, apply_overlay,
}

module _ {D I : Type 0} where
  Kept-journal :
      (s : LiveState D I) (x : JournalRecord D I) (g h : History D I)
      → journal_of g ≡ journal_of h
      → Kept s x h
      → Kept s x g
  Kept-journal (repair n) x g h j k = tt
  Kept-journal (verified m) x g h j k = tt
  Kept-journal committed x g h j k = ap (journaled_in x.resource) j ∙ k
  Kept-journal _ x g h j k = ap (journaled_in x.resource) j ∙ k

  IsSynced-journal :
      (live : LiveRecord D I) (g h : History D I)
      → journal_of g ≡ journal_of h
      → IsSynced live h
      → IsSynced live g
  IsSynced-journal live g h j p = record {
    kept = Kept-journal live.state live.entry g h j p.kept;
    shape = p.shape;
  }

  -- A rebase is told only of a record that is settled, and the end of the lease never.
  abbrev pub quiet_if_rebased : ReconcileOutcome → LiveState D I → Bool
  quiet_if_rebased rebased s = quiet s
  quiet_if_rebased no_active_lease s = false
  quiet_if_rebased _ s = true

  abbrev pub OverlayPost : Post D I (ReconcileOutcome × LiveRecord D I)
  OverlayPost g r = IsSynced r.1 g × (quiet_if_rebased r.0 r.1.state ≡ true)

module _ {D I : Type 0} (b : Backend D) (o : Oracle D I) where
  finish_overlay-Safe :
      (r : Outcome D I) (h : History D I)
      → SyncedPost h r
      → Safe o (monitor b) OverlayPost (finish_overlay b r) h
  unfolding finish_overlay
  finish_overlay-Safe (err e, live) h p = (p.0, refl)
  finish_overlay-Safe (ok u, live) h p = (refl, (IsSynced-journal live _ h refl p.0, p.1))

  residual-IsSynced :
      (x : JournalRecord D I) (residue : MutationResidue D) (g : History D I)
      → bound x ≡ true
      → journaled x.resource g ≡ some x
      → IsSynced (record { entry = x; state = residual residue x }) g
  residual-IsSynced x unchanged g v j = record { kept = j; shape = v }
  residual-IsSynced x (restored identity) g v j = record { kept = j; shape = v }
  residual-IsSynced x (pending p) g v j = record {
    kept = j;
    shape = ground (arith, text_eq_refl x.resource.text);
  }

  after_overlay-Safe :
      (x : JournalRecord D I) (expected : PlatformSnapshot D)
      (r : Result (VerifiedMutation D) (MutationFailure D)) (h g : History D I)
      → bound x ≡ true
      → journaled x.resource h ≡ some x
      → MutatePost b x.identity expected x.desired h g r
      → Safe o (monitor b) OverlayPost (after_overlay b x r) g
  unfolding after_overlay
  after_overlay-Safe x expected (ok m) h g v j p =
      Safe-bind o (monitor b) SyncedPost OverlayPost _ _ g
        (commit_verified-Safe b o (record { entry = x; state = prepared }) m g v)
        (λ g' r q. finish_overlay-Safe r g' q)
  after_overlay-Safe x expected (err failure) h g v j p =
      (residual-IsSynced x failure.residue g v (ap (journaled_in x.resource) p.0 ∙ j), refl)

  announced-by :
      (x : JournalRecord D I) (h : History D I)
      → bound x ≡ true
      → is_prepared x.phase ≡ true
      → journaled x.resource h ≡ some x
      → announces x.desired (journaled x.identity.resource h) ≡ true
  announced-by x h v q j =
      subst (λ r. announces x.desired (journaled r h) ≡ true) (sym (bound_eq x v))
        (rw j (rw q (plan_eq_refl x.desired)))

  abbrev StillPrepared : LiveRecord D I → JournalRecord D I → Post D I (Fallible (Unit {0}))
  StillPrepared live x g r = IsSynced live g × (journaled x.resource g ≡ some x)

  overlay_prepared-Safe :
      (live : LiveRecord D I) (x : JournalRecord D I) (expected : PlatformSnapshot D)
      (r : Outcome D I) (h : History D I)
      → bound x ≡ true
      → is_prepared x.phase ≡ true
      → PreparePost b o live x h r
      → Safe o (monitor b) OverlayPost (overlay_prepared b expected x r) h
  unfolding overlay_prepared
  overlay_prepared-Safe live x expected (err e, live') h v q p = (p.0, refl)
  overlay_prepared-Safe live x expected (ok u, live') h v q p =
      Safe-or_fail o (monitor b) (StillPrepared live' x) OverlayPost (λ e. (deferred, live'))
        (fire after_prepared) _ h (refl, (IsSynced-journal live' _ h refl p.0, p.2))
        (λ g u' s.
          Safe-bind o (monitor b) (MutatePost b x.identity expected x.desired g) OverlayPost _ _ g
            (mutate_and_verify-Safe b o x.identity expected x.desired reconcile_points g
              (announced-by x g v q s.1))
            (λ g' r p'. after_overlay-Safe x expected r g g' v s.1 p'))
        (λ g e s. (s.0, refl))

  -- From a live record that has the shape of its state and awaits no repair, `apply_overlay` obeys
  -- the monitor, so that the overlay is applied only while the journal announces it. Whatever
  -- fails, the live record that it leaves agrees with the journal. `Rebased` means that its state
  -- is `Committed` or `Unmutated`, and `NoActiveLease` is never told.
  pub apply_overlay-Safe :
      (live : LiveRecord D I) (expected before : PlatformSnapshot D) (h : History D I)
      → shaped live.state live.entry ≡ true
      → unrepaired live.state ≡ true
      → Safe o (monitor b) OverlayPost (apply_overlay b live expected before) h
  unfolding apply_overlay
  apply_overlay-Safe live expected before h v u =
      Safe-bind o (monitor b) (PreparePost b o live (overlaid live.entry before)) OverlayPost _ _ h
        (prepare_live-Safe b o live (overlaid live.entry before) h v u
          (shaped-bound live.state live.entry v))
        λ g r p.
          overlay_prepared-Safe live (overlaid live.entry before) expected r g
            (shaped-bound live.state live.entry v) refl p
