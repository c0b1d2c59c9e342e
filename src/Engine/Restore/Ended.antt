-- ===== src/Engine/Restore/Ended.antt =====
-- What a restore that returns `Ok` has established.
use osdns.Prelude.{
  ◌≡◌, refl, subst, Bool-cases, inl, inr, if◌then◌else◌, ◌∷◌, true, Option, none, some, ◌&&◌, arith,
}
use osdns.Text.{text_eq_refl}
use osdns.Error.{Fallible, ok, err, is_resource_gone}
use osdns.Platform.{
  PlatformSnapshot, ResourceStatus, same, gone, replaced, ambiguous, Backend, owns_current,
}
use osdns.Journal.{JournalRecord}
use osdns.Tx.{
  History, call_status, call_readback, call_fire, after_restore_readback, after_restore_restore,
  ret, ◌>>=◌,
}
use osdns.Tx.History.{same_resource, last_read, last_status}
use osdns.Tx.Logic.{Oracle, Safe, Safe-bind}
use osdns.Engine.Monitor.{monitor}
use osdns.Engine.Compensate.{Compensated}
use osdns.Engine.Compensate.Guard.{CompensatePost, settled_if_ok, compensate-Safe}
use osdns.Engine.Live.{
  LiveState, LiveRecord, committed, compensating, Outcome, applied_of, resolve_live,
}
use osdns.Engine.Live.Synced.{shaped, bound, IsSynced, Kept, ResolvePost, retain_compensation-Safe}
use osdns.Engine.Live.Resolved.{resolve_live-Safe}
use osdns.Engine.Restore.{
  forget, forget_and_fire, after_compensating, restore_owned, restore_applied, after_resolving,
  resolve_first, restore_current, restore_same, restore_status, restore_live_state,
}
use osdns.Engine.Restore.Reason.{bound_eq, shaped-bound, RestorePost, reason}

module _ {D I : Type 0} (b : Backend D) (o : Oracle D I) where
  forget-Safe :
      (live : LiveRecord D I) (h : History D I)
      → reason b live.entry h ≡ true
      → shaped live.state live.entry ≡ true
      → Safe o (monitor b) (RestorePost b) (forget live) h
  forget-Safe live h r v = ground (arith, text_eq_refl live.entry.resource.text)

  forget_and_fire-Safe :
      (live : LiveRecord D I) (h : History D I)
      → reason b live.entry h ≡ true
      → shaped live.state live.entry ≡ true
      → Safe o (monitor b) (RestorePost b) (forget_and_fire live) h
  forget_and_fire-Safe live h r v = ground (arith, text_eq_refl live.entry.resource.text)

  after_compensating-Safe :
      (live : LiveRecord D I) (resume : JournalRecord D I) (c : Compensated D) (h : History D I)
      → bound live.entry && bound resume && same_resource resume.resource live.entry.resource ≡ true
      → (settled_if_ok b live.entry.resource live.entry.before h c.0 ≡ true)
      → Safe o (monitor b) (RestorePost b) (after_compensating b live resume c) h
  unfolding after_compensating
  after_compensating-Safe live resume (err e, p) h v s =
      Safe-bind o (monitor b) (λ g r. IsSynced r.1 g) _ _ _ h
        (retain_compensation-Safe b o live p resume h v) λ g r w. w.shape
  after_compensating-Safe live resume (ok identity, p) h v s =
      forget_and_fire-Safe (record live { state = compensating p resume }) h (ground arith) v

  -- The restore itself, once the applied state is owned.
  restore_owned-Safe :
      (live : LiveRecord D I) (applied : PlatformSnapshot D) (h : History D I)
      → bound live.entry ≡ true
      → Safe o (monitor b) (RestorePost b) (restore_owned b live applied) h
  unfolding restore_owned
  restore_owned-Safe live applied h v =
      Safe-bind o (monitor b) (CompensatePost b live.entry.identity live.entry.before h) _ _ _ h
        (compensate-Safe b o live.entry.identity
          (record { evidence = some applied; target = live.entry.before })
          (some after_restore_restore) h)
        λ g c p.
          after_compensating-Safe _ _ c g (ground (arith, text_eq_refl live.entry.resource.text)) (
            subst (λ r. settled_if_ok b r live.entry.before g c.0 ≡ true) (bound_eq live.entry v)
              p.1)

  restore_applied-Safe :
      (applied : Option (PlatformSnapshot D)) (live : LiveRecord D I) (current : PlatformSnapshot D)
      (h : History D I)
      → shaped live.state live.entry ≡ true
      → bound live.entry ≡ true
      → Safe o (monitor b) (RestorePost b) (restore_applied b applied live current) h
  unfolding restore_applied
  restore_applied-Safe none live current h v w = v
  restore_applied-Safe (some applied) live current h v w =
      elim (Bool-cases (owns_current b applied current)) [
        | inl e ↦ rw e (restore_owned-Safe live applied h w)
        | inr e ↦ rw e v
      ]

  after_resolving-Safe :
      (r : Outcome D I) (h : History D I)
      → shaped r.1.state r.1.entry ≡ true
      → Safe o (monitor b) (RestorePost b) (after_resolving b r) h
  unfolding after_resolving
  after_resolving-Safe (err e, live) h v = v
  after_resolving-Safe (ok u, live) h v = (refl, go (o h (call_readback live.entry.resource)))
    where
      go :
          (r : Fallible (PlatformSnapshot D))
          → Safe o
              (monitor b)
              (RestorePost b)
              (elim r [
                | ok current ↦
                    if b.equivalent current live.entry.before
                    then forget_and_fire live
                    else restore_applied b (applied_of live) live current
                | err e ↦ ret (err e, live)
              ])
              (record { call = call_readback live.entry.resource; reply = r } ∷ h)
      go (err e) = v
      go (ok current) = elim (Bool-cases (b.equivalent current live.entry.before)) [
        | inl e ↦
            rw e (
              forget_and_fire-Safe live _ (ground (arith, text_eq_refl live.entry.resource.text)) v)
        | inr e ↦ rw e (
            restore_applied-Safe (applied_of live) live current _ v
              (shaped-bound live.state live.entry v))
      ]

  pending-Safe :
      (live : LiveRecord D I) (current : PlatformSnapshot D) (h : History D I)
      → shaped live.state live.entry ≡ true
      → Safe o
          (monitor b)
          (RestorePost b)
          (resolve_live b live (some current) >>= after_resolving b)
          h
  pending-Safe live current h v =
      Safe-bind o (monitor b) (ResolvePost (Kept live.state live.entry h)) _ _ _ h
        (resolve_live-Safe b o live (some current) h v) λ g r p. after_resolving-Safe r g p.1

  resolve_first-Safe :
      (s : LiveState D I) (live : LiveRecord D I) (current : PlatformSnapshot D) (h : History D I)
      → shaped live.state live.entry ≡ true
      → Safe o (monitor b) (RestorePost b) (resolve_first b s live current) h
  unfolding resolve_first
  resolve_first-Safe committed live current h v =
      restore_applied-Safe (applied_of live) live current h v (shaped-bound live.state live.entry v)
  resolve_first-Safe _ live current h v = pending-Safe live current h v

  restore_current-Safe :
      (live : LiveRecord D I) (current : PlatformSnapshot D) (h : History D I)
      → shaped live.state live.entry ≡ true
      → last_read live.entry.resource h ≡ some current
      → Safe o (monitor b) (RestorePost b) (restore_current b live current) h
  unfolding restore_current
  restore_current-Safe live current h v e = (refl, go (o h (call_fire after_restore_readback)))
    where
      go :
          (r : Fallible (Unit {0}))
          → Safe o
              (monitor b)
              (RestorePost b)
              (elim r [
                | ok u ↦
                    if b.equivalent current live.entry.before
                    then forget_and_fire live
                    else resolve_first b live.state live current
                | err f ↦ ret (err f, live)
              ])
              (record { call = call_fire after_restore_readback; reply = r } ∷ h)
      go (err f) = v
      go (ok u) = elim (Bool-cases (b.equivalent current live.entry.before)) [
        | inl same_before ↦ rw same_before (forget_and_fire-Safe live _ (ground arith) v)
        | inr other ↦ rw other (resolve_first-Safe live.state live current _ v)
      ]

  restore_same-Safe :
      (live : LiveRecord D I) (r : Fallible (PlatformSnapshot D)) (h : History D I)
      → shaped live.state live.entry ≡ true
      → Safe o
          (monitor b)
          (RestorePost b)
          (restore_same b live r)
          (record { call = call_readback live.entry.resource; reply = r } ∷ h)
  unfolding restore_same
  restore_same-Safe live (ok current) h v =
      restore_current-Safe live current _ v (rw (text_eq_refl live.entry.resource.text))
  restore_same-Safe live (err e) h v = elim (Bool-cases (is_resource_gone e)) [
    | inl departed ↦
        rw departed (forget-Safe live _ (ground (arith, text_eq_refl live.entry.resource.text)) v)
    | inr other ↦ rw other v
  ]

  restore_status-Safe :
      (live : LiveRecord D I) (s : ResourceStatus) (h : History D I)
      → shaped live.state live.entry ≡ true
      → last_status live.entry.resource h ≡ some s
      → Safe o (monitor b) (RestorePost b) (restore_status b live s) h
  unfolding restore_status
  restore_status-Safe live gone h v e = forget-Safe live h (ground arith) v
  restore_status-Safe live replaced h v e = forget-Safe live h (ground arith) v
  restore_status-Safe live ambiguous h v e = v
  restore_status-Safe live same h v e =
      (refl, restore_same-Safe live (o h (call_readback live.entry.resource)) h v)

  -- For a live record that has the shape of its state, `restore_live_state` obeys the monitor: it
  -- restores native state only over a latest read that the evidence it hands over owns. `Ok` means
  -- that the removal of the journal record was the last journal event, and that the resource
  -- departed or its latest read, with no write since, is equivalent to the state before the lease.
  -- After an error the record still has the shape of its state.
  pub restore_live_state-Safe :
      (live : LiveRecord D I) (h : History D I)
      → shaped live.state live.entry ≡ true
      → Safe o (monitor b) (RestorePost b) (restore_live_state b live) h
  unfolding restore_live_state
  restore_live_state-Safe live h v = (refl, go (o h (call_status live.entry.identity)))
    where
      go :
          (r : Fallible ResourceStatus)
          → Safe o
              (monitor b)
              (RestorePost b)
              (elim r [ ok s ↦ restore_status b live s | err e ↦ ret (err e, live) ])
              (record { call = call_status live.entry.identity; reply = r } ∷ h)
      go (err e) = v
      go (ok s) = restore_status-Safe live s _ v (rw (shaped-bound live.state live.entry v))
