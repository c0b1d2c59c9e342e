-- ===== src/Engine/Recover/Confined.antt =====
-- The recovery of a record is confined to its resource.
use osdns.Prelude.{◌≡◌, refl, true, some, List, arith, Bool-cases, inl, inr}
use osdns.Text.{Text, text_eq}
use osdns.Error.{ResourceId, Fallible, ok, err, is_resource_gone}
use osdns.Platform.{PlatformSnapshot, Backend, ResourceStatus, same, gone, replaced, ambiguous}
use osdns.Journal.{JournalRecord}
use osdns.Tx.{after_recovery_readback, after_recovery_restore, History, fire, status}
use osdns.Tx.Logic.{Any, Oracle, Safe, Safe-bind, Safe-or_fail}
use osdns.Engine.Compensate.{Compensated}
use osdns.Engine.Compensate.Confined.{compensate-Confined}
use osdns.Engine.Recover.{
  RecoveryOutcome, evidence_owns, clear_as, clear_and_fire, recovered_as, recover_owned,
  recover_current, recover_same, recover_status, recover_record, recover_for_resource,
}
use osdns.Engine.Confined.{confined, covers}

module _ {D I : Type 0} (b : Backend D) (o : Oracle D I) (rs : List ResourceId)
    (x : JournalRecord D I) (v : covers rs x ≡ true) where
  clear_as-Confined :
      (outcome : RecoveryOutcome) (h : History D I)
      → Safe o (confined rs) Any (clear_as x outcome) h
  unfolding clear_as
  clear_as-Confined outcome h = ground (arith, v)

  clear_and_fire-Confined :
      (outcome : RecoveryOutcome) (h : History D I)
      → Safe o (confined rs) Any (clear_and_fire x outcome) h
  unfolding clear_and_fire
  clear_and_fire-Confined outcome h = ground (arith, v)

  recovered_as-Confined :
      (c : Compensated D) (h : History D I) → Safe o (confined rs) Any (recovered_as b x c) h
  unfolding recovered_as
  recovered_as-Confined (ok i, p) h = clear_and_fire-Confined _ h
  recovered_as-Confined (err e, p) h = ground (arith, v)

  recover_owned-Confined : (h : History D I) → Safe o (confined rs) Any (recover_owned b x) h
  unfolding recover_owned
  recover_owned-Confined h =
      Safe-bind o (confined rs) Any Any _ _ h
        (compensate-Confined b o rs x.identity (record { evidence = x.applied; target = x.before })
          (some after_recovery_restore) h (ground (arith, v)))
        (λ g c _. recovered_as-Confined c g)

  recover_current-Confined :
      (current : PlatformSnapshot D) (h : History D I)
      → Safe o (confined rs) Any (recover_current b x current) h
  unfolding recover_current
  recover_current-Confined current h =
      Safe-or_fail o (confined rs) Any Any (λ e. err e) (fire after_recovery_readback) _ h
        (refl, tt)
        (λ g u _. elim (Bool-cases (b.equivalent current x.before)) [
          | inl e ↦ rw e (clear_and_fire-Confined _ g)
          | inr e ↦ elim (Bool-cases (evidence_owns b x.applied current)) [
            | inl e' ↦ rw e (rw e' (recover_owned-Confined g))
            | inr e' ↦ rw e (rw e' tt)
          ]
        ])
        (λ g e _. tt)

  recover_same-Confined :
      (r : Fallible (PlatformSnapshot D)) (h : History D I)
      → Safe o (confined rs) Any (recover_same b x r) h
  unfolding recover_same
  recover_same-Confined (ok current) h = recover_current-Confined current h
  recover_same-Confined (err e) h = elim (Bool-cases (is_resource_gone e)) [
    | inl p ↦ rw p (clear_as-Confined _ h)
    | inr p ↦ rw p tt
  ]

  recover_status-Confined :
      (s : ResourceStatus) (h : History D I) → Safe o (confined rs) Any (recover_status b x s) h
  unfolding recover_status
  recover_status-Confined gone h = clear_as-Confined _ h
  recover_status-Confined replaced h = clear_as-Confined _ h
  recover_status-Confined ambiguous h = tt
  recover_status-Confined same h = (refl, recover_same-Confined _ _)

  pub recover_record-Confined : (h : History D I) → Safe o (confined rs) Any (recover_record b x) h
  unfolding recover_record
  recover_record-Confined h =
      Safe-or_fail o (confined rs) Any Any (λ e. err e) (status x.identity) _ h (refl, tt)
        (λ g s _. recover_status-Confined s g) (λ g e _. tt)

  pub recover_for_resource-Confined :
      (owner : Text) (h : History D I) → Safe o (confined rs) Any (recover_for_resource b owner x) h
  unfolding recover_for_resource
  recover_for_resource-Confined owner h = elim (Bool-cases (text_eq x.owner owner)) [
    | inl e ↦
        rw e (Safe-bind o (confined rs) Any Any _ _ h (recover_record-Confined h) (λ g r _. tt))
    | inr e ↦ rw e tt
  ]
