-- ===== src/Engine/Reconcile/Pass.antt =====
-- One whole reconcile pass.
use mathlib.Core.Bool.{false≢true}
use osdns.Prelude.{
  ℕ, ◌∷◌, ◌≡◌, refl, Bool, true, Option, none, some, not, ◌&&◌, ◌||◌, leb, length, arith,
  Bool-cases, inl, inr,
}
use osdns.Text.{text_eq_refl}
use osdns.Error.{Error, Fallible, ok, err, is_resource_gone}
use osdns.Platform.{Backend, PlatformSnapshot}
use osdns.Tx.{History, call_readback}
use osdns.Tx.History.{journal_of, read_gone, cleared_last}
use osdns.Tx.Logic.{Oracle, Post, Safe, Safe-bind}
use osdns.Engine.Monitor.{monitor}
use osdns.Engine.Live.{LiveRecord, LiveState, repair}
use osdns.Engine.Live.Synced.{Kept, is_some, shaped, quiet, quiet_if_ok, unrepaired, ResolvePost}
use osdns.Engine.Live.Resolved.{resolve_live-Safe}
use osdns.Engine.Reconcile.{
  ReconcileOutcome, no_active_lease, rebased, PassState, Passed, is_prepared_state, overlay_pass,
  rebase_gated, rebase, reconcile_stable, unregister_active, read_failed, second_read, first_read,
  pass_resolved, reconcile_pass,
}
use osdns.Reconciler.{BreakerState, breaker_gate}
use osdns.Engine.Reconcile.Overlay.{OverlayPost, quiet_if_rebased, apply_overlay-Safe}

abbrev pub is_idle : BreakerState → Bool
is_idle breaker = leb (length breaker.attempts) 0 && not (is_some breaker.open_until)

module _ {D I : Type 0} where
  -- Nothing is kept for the resource any more.
  abbrev pub is_forgotten : PassState D I → Bool
  is_forgotten st =
      not (st.registered || st.has_token || st.is_pending)
      && is_idle st.breaker
      && not (is_some st.postponed)

  -- What the outcome tells of the history and of the lease's registration.
  abbrev told : PassState D I → ReconcileOutcome → History D I → Bool
  told st no_active_lease g =
      is_forgotten st
      && cleared_last st.live.entry (journal_of g)
      && read_gone st.live.entry.resource g
  told st outcome g = st.registered && quiet_if_rebased outcome st.live.state

  abbrev pub PassPost : Post D I (Passed D I)
  PassPost g r = (shaped r.1.live.state r.1.live.entry ≡ true) × (told r.1 r.0 g ≡ true)

  overlay-told :
      (st : PassState D I) (live : LiveRecord D I) (outcome : ReconcileOutcome) (g : History D I)
      → st.registered ≡ true
      → quiet_if_rebased outcome live.state ≡ true
      → told (record st { live = live }) outcome g ≡ true
  overlay-told st live no_active_lease g w q = absurd (false≢true q)
  overlay-told st live rebased g w q = rw w q
  overlay-told st live _ g w q = rw w refl

module _ {D I : Type 0} (b : Backend D) (o : Oracle D I) where
  overlay_pass-Safe :
      (st : PassState D I) (expected before : PlatformSnapshot D) (h : History D I)
      → shaped st.live.state st.live.entry ≡ true
      → unrepaired st.live.state ≡ true
      → st.registered ≡ true
      → Safe o (monitor b) PassPost (overlay_pass b st expected before) h
  unfolding overlay_pass
  overlay_pass-Safe st expected before h v u w =
      Safe-bind o (monitor b) OverlayPost PassPost _ _ h
        (apply_overlay-Safe b o st.live expected before h v u)
        (λ g r p. (p.0.shape, overlay-told st r.1 r.0 g w p.1))

  rebase_gated-Safe :
      (gate : Option ℕ) (st : PassState D I) (second : PlatformSnapshot D) (h : History D I)
      → shaped st.live.state st.live.entry ≡ true
      → unrepaired st.live.state ≡ true
      → st.registered ≡ true
      → Safe o (monitor b) PassPost (rebase_gated b gate st second) h
  unfolding rebase_gated
  rebase_gated-Safe none st second h v u w = overlay_pass-Safe st second second h v u w
  rebase_gated-Safe (some cooldown) st second h v u w = (v, rw w refl)

  rebase-Safe :
      (now : ℕ) (st : PassState D I) (second : PlatformSnapshot D) (h : History D I)
      → shaped st.live.state st.live.entry ≡ true
      → unrepaired st.live.state ≡ true
      → st.registered ≡ true
      → Safe o (monitor b) PassPost (rebase b now st second) h
  unfolding rebase
  rebase-Safe now st second h v u w =
      rebase_gated-Safe (breaker_gate now st.breaker).0
        (record st { breaker = (breaker_gate now st.breaker).1 }) second h v u w

  reconcile_stable-Safe :
      (now : ℕ) (st : PassState D I) (second : PlatformSnapshot D) (h : History D I)
      → shaped st.live.state st.live.entry ≡ true
      → unrepaired st.live.state ≡ true
      → st.registered ≡ true
      → Safe o (monitor b) PassPost (reconcile_stable b now st second) h
  unfolding reconcile_stable
  reconcile_stable-Safe now st second h v u w = ground (
    arith,
    overlay_pass-Safe st second st.live.entry.before h v u w,
    rebase-Safe now st second h v u w,
  )

  read_failed-Safe :
      (st : PassState D I) (e : Error) (h : History D I)
      → shaped st.live.state st.live.entry ≡ true
      → st.registered ≡ true
      → read_gone st.live.entry.resource h ≡ is_resource_gone e
      → Safe o (monitor b) PassPost (read_failed b st e) h
  unfolding read_failed unregister_active
  read_failed-Safe st e h v w r = ground (arith, text_eq_refl st.live.entry.resource.text)

  second_read-Safe :
      (now : ℕ) (st : PassState D I) (first : PlatformSnapshot D)
      (r : Fallible (PlatformSnapshot D)) (h : History D I)
      → shaped st.live.state st.live.entry ≡ true
      → unrepaired st.live.state ≡ true
      → st.registered ≡ true
      → Safe o
          (monitor b)
          PassPost
          (second_read b now st first r)
          (record { call = call_readback st.live.entry.resource; reply = r } ∷ h)
  unfolding second_read
  second_read-Safe now st first (err e) h v u w =
      read_failed-Safe st e _ v w (rw (text_eq_refl st.live.entry.resource.text) refl)
  second_read-Safe now st first (ok second) h v u w = ground (
    arith,
    reconcile_stable-Safe now st second
        (record { call = call_readback st.live.entry.resource; reply = ok second } ∷ h) v u w,
  )

  first_read-Safe :
      (now : ℕ) (st : PassState D I) (r : Fallible (PlatformSnapshot D)) (h : History D I)
      → shaped st.live.state st.live.entry ≡ true
      → unrepaired st.live.state ≡ true
      → st.registered ≡ true
      → Safe o
          (monitor b)
          PassPost
          (first_read b now st r)
          (record { call = call_readback st.live.entry.resource; reply = r } ∷ h)
  unfolding first_read
  first_read-Safe now st (err e) h v u w =
      read_failed-Safe st e _ v w (rw (text_eq_refl st.live.entry.resource.text) refl)
  first_read-Safe now st (ok first) h v u w =
      (refl, second_read-Safe now st first (o _ (call_readback st.live.entry.resource)) _ v u w)

  prepared-unrepaired : (s : LiveState D I) → is_prepared_state s ≡ true → unrepaired s ≡ true
  prepared-unrepaired (repair n) h = absurd (false≢true h)
  prepared-unrepaired _ h = refl

  quiet-unrepaired : (s : LiveState D I) → quiet s ≡ true → unrepaired s ≡ true
  quiet-unrepaired (repair n) h = absurd (false≢true h)
  quiet-unrepaired _ h = refl

  pass_resolved-Safe :
      (now : ℕ) (st : PassState D I) (r : Fallible (Unit {0})) (h : History D I)
      → shaped st.live.state st.live.entry ≡ true
      → quiet_if_ok r st.live.state ≡ true
      → st.registered ≡ true
      → Safe o (monitor b) PassPost (pass_resolved b now st r) h
  unfolding pass_resolved
  pass_resolved-Safe now st (ok u) h v q w = (
    refl,
    first_read-Safe now st (o h (call_readback st.live.entry.resource)) h v
        (quiet-unrepaired st.live.state q) w,
  )
  pass_resolved-Safe now st (err e) h v q w = elim (Bool-cases (is_prepared_state st.live.state)) [
    | inl p ↦ rw p (
      refl,
      first_read-Safe now st (o h (call_readback st.live.entry.resource)) h v
          (prepared-unrepaired st.live.state p) w,
    )
    | inr p ↦ rw p (ground arith)
  ]

  -- From a registered live record that has the shape of its state, a reconcile pass obeys the
  -- monitor, and the live record has the shape of its state afterwards, whatever fails.
  -- `NoActiveLease` is told only when the latest read found the resource gone and the removal of its
  -- record was the last journal event; then the lease is unregistered, and no token, pending entry,
  -- deferral or breaker is left for it. After every other outcome the lease is still registered. `Rebased` means that the state is `Committed` or
  -- `Unmutated`.
  pub reconcile_pass-Safe :
      (now : ℕ) (st : PassState D I) (h : History D I)
      → shaped st.live.state st.live.entry ≡ true
      → st.registered ≡ true
      → Safe o (monitor b) PassPost (reconcile_pass b now st) h
  unfolding reconcile_pass
  reconcile_pass-Safe now st h v w =
      Safe-bind o (monitor b) (ResolvePost (Kept st.live.state st.live.entry h)) PassPost _ _ h
        (resolve_live-Safe b o st.live none h v)
        (λ g r p. pass_resolved-Safe now (record st { live = r.1 }) r.0 g p.1 p.2 w)
