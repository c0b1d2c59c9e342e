-- ===== src/Engine/Restore/Confined.antt =====
-- A restore is confined to the resource of its record.
use osdns.Prelude.{◌≡◌, refl, true, Option, none, some, List, arith, Bool-cases, inl, inr}
use osdns.Error.{ResourceId, Fallible, ok, err, is_resource_gone}
use osdns.Platform.{
  PlatformSnapshot, Backend, owns_current, ResourceStatus, same, gone, replaced, ambiguous,
}
use osdns.Journal.{JournalRecord}
use osdns.Tx.{after_restore_readback, after_restore_restore, History, readback, fire, status}
use osdns.Tx.Logic.{Any, Oracle, Safe, Safe-bind, Safe-or_fail}
use osdns.Engine.Compensate.{Compensated}
use osdns.Engine.Compensate.Confined.{compensate-Confined}
use osdns.Engine.Live.{LiveRecord, LiveState, committed, compensating, Outcome, applied_of}
use osdns.Engine.Live.Confined.{LiveInPost, resolve_live-Confined, retain_compensation-Confined}
use osdns.Engine.Restore.{
  forget, forget_and_fire, after_compensating, restore_owned, restore_applied, after_resolving,
  resolve_first, restore_current, restore_same, restore_status, restore_live_state,
}
use osdns.Engine.Confined.{confined, covers, live_in, live_in-covers}

module _ {D I : Type 0} (b : Backend D) (o : Oracle D I) (rs : List ResourceId) where
  forget-Confined :
      (live : LiveRecord D I) (h : History D I)
      → live_in rs live.state live.entry ≡ true
      → Safe o (confined rs) (LiveInPost rs) (forget live) h
  forget-Confined live h v = ground (arith, live_in-covers rs live.state live.entry v)

  forget_and_fire-Confined :
      (live : LiveRecord D I) (h : History D I)
      → live_in rs live.state live.entry ≡ true
      → Safe o (confined rs) (LiveInPost rs) (forget_and_fire live) h
  forget_and_fire-Confined live h v = ground (arith, live_in-covers rs live.state live.entry v)

  after_compensating-Confined :
      (live : LiveRecord D I) (resume : JournalRecord D I) (c : Compensated D) (h : History D I)
      → covers rs live.entry ≡ true
      → covers rs resume ≡ true
      → Safe o (confined rs) (LiveInPost rs) (after_compensating b live resume c) h
  unfolding after_compensating
  after_compensating-Confined live resume (err e, p) h v w =
      Safe-bind o (confined rs) (LiveInPost rs) (LiveInPost rs) _ _ h
        (retain_compensation-Confined b o rs live p resume h v w) (λ g r q. q)
  after_compensating-Confined live resume (ok i, p) h v w =
      forget_and_fire-Confined (record live { state = compensating p resume }) h (ground arith)

  restore_owned-Confined :
      (live : LiveRecord D I) (applied : PlatformSnapshot D) (h : History D I)
      → covers rs live.entry ≡ true
      → Safe o (confined rs) (LiveInPost rs) (restore_owned b live applied) h
  unfolding restore_owned
  restore_owned-Confined live applied h v =
      Safe-bind o (confined rs) Any (LiveInPost rs) _ _ h
        (compensate-Confined b o rs live.entry.identity
          (record { evidence = some applied; target = live.entry.before })
          (some after_restore_restore) h (ground arith))
        (λ g c _. after_compensating-Confined _ _ c g v v)

  restore_applied-Confined :
      (applied : Option (PlatformSnapshot D)) (live : LiveRecord D I) (current : PlatformSnapshot D)
      (h : History D I)
      → live_in rs live.state live.entry ≡ true
      → Safe o (confined rs) (LiveInPost rs) (restore_applied b applied live current) h
  unfolding restore_applied
  restore_applied-Confined none live current h v = v
  restore_applied-Confined (some applied) live current h v =
      elim (Bool-cases (owns_current b applied current)) [
        | inl e ↦
            rw e (restore_owned-Confined live applied h (live_in-covers rs live.state live.entry v))
        | inr e ↦ rw e v
      ]

  after_resolving-Confined :
      (r : Outcome D I) (h : History D I)
      → LiveInPost rs h r
      → Safe o (confined rs) (LiveInPost rs) (after_resolving b r) h
  unfolding after_resolving
  after_resolving-Confined (err e, live) h v = v
  after_resolving-Confined (ok u, live) h v =
      Safe-or_fail o (confined rs) Any (LiveInPost rs) (λ e. (err e, live))
        (readback live.entry.resource) _ h (refl, tt)
        (λ g current _. elim (Bool-cases (b.equivalent current live.entry.before)) [
          | inl e ↦ rw e (forget_and_fire-Confined live g v)
          | inr e ↦ rw e (restore_applied-Confined (applied_of live) live current g v)
        ])
        (λ g e _. v)

  resolve_first-Confined :
      (s : LiveState D I) (x : JournalRecord D I) (current : PlatformSnapshot D) (h : History D I)
      → live_in rs s x ≡ true
      → Safe o
          (confined rs)
          (LiveInPost rs)
          (resolve_first b s (record { entry = x; state = s }) current)
          h
  unfolding resolve_first
  resolve_first-Confined committed x current h v =
      restore_applied-Confined x.applied (record { entry = x; state = committed }) current h v
  resolve_first-Confined s x current h v =
      Safe-bind o (confined rs) (LiveInPost rs) (LiveInPost rs) _ _ h
        (resolve_live-Confined b o rs (record { entry = x; state = s }) (some current) h v)
        (λ g r q. after_resolving-Confined r g q)

  restore_current-Confined :
      (live : LiveRecord D I) (current : PlatformSnapshot D) (h : History D I)
      → live_in rs live.state live.entry ≡ true
      → Safe o (confined rs) (LiveInPost rs) (restore_current b live current) h
  unfolding restore_current
  restore_current-Confined live current h v =
      Safe-or_fail o (confined rs) Any (LiveInPost rs) (λ e. (err e, live))
        (fire after_restore_readback) _ h (refl, tt)
        (λ g u _. elim (Bool-cases (b.equivalent current live.entry.before)) [
          | inl e ↦ rw e (forget_and_fire-Confined live g v)
          | inr e ↦ rw e (resolve_first-Confined live.state live.entry current g v)
        ])
        (λ g e _. v)

  restore_same-Confined :
      (live : LiveRecord D I) (r : Fallible (PlatformSnapshot D)) (h : History D I)
      → live_in rs live.state live.entry ≡ true
      → Safe o (confined rs) (LiveInPost rs) (restore_same b live r) h
  unfolding restore_same
  restore_same-Confined live (ok current) h v = restore_current-Confined live current h v
  restore_same-Confined live (err e) h v = elim (Bool-cases (is_resource_gone e)) [
    | inl p ↦ rw p (forget-Confined live h v)
    | inr p ↦ rw p v
  ]

  restore_status-Confined :
      (live : LiveRecord D I) (s : ResourceStatus) (h : History D I)
      → live_in rs live.state live.entry ≡ true
      → Safe o (confined rs) (LiveInPost rs) (restore_status b live s) h
  unfolding restore_status
  restore_status-Confined live gone h v = forget-Confined live h v
  restore_status-Confined live replaced h v = forget-Confined live h v
  restore_status-Confined live ambiguous h v = v
  restore_status-Confined live same h v = (refl, restore_same-Confined live _ _ v)

  pub restore_live_state-Confined :
      (live : LiveRecord D I) (h : History D I)
      → live_in rs live.state live.entry ≡ true
      → Safe o (confined rs) (LiveInPost rs) (restore_live_state b live) h
  unfolding restore_live_state
  restore_live_state-Confined live h v =
      Safe-or_fail o (confined rs) Any (LiveInPost rs) (λ e. (err e, live))
        (status live.entry.identity) _ h (refl, tt) (λ g s _. restore_status-Confined live s g v)
        (λ g e _. v)
