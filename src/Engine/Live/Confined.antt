-- ===== src/Engine/Live/Confined.antt =====
-- The operations on one live record are confined to its resource.
use osdns.Prelude.{◌≡◌, refl, true, Option, none, some, List, ◌∷◌, arith}
use osdns.Error.{ResourceId, Fallible, ok, err}
use osdns.Platform.{PlatformSnapshot, Backend, VerifiedMutation}
use osdns.Journal.{JournalRecord}
use osdns.Tx.{call_write, History, ret}
use osdns.Tx.Logic.{Oracle, Any, Post, Safe, Safe-bind}
use osdns.Engine.Compensate.{PendingRollback, Compensated}
use osdns.Engine.Live.{
  LiveRecord, LiveState, committed, unmutated, prepared, verified, compensating, repair, Outcome,
  persist_live, prepare_live, retain_compensation, after_compensation, current_or_read,
  resolve_state, resolve_from, resolve_live, commit_verified,
}
use osdns.Engine.Confined.{confined, covers, live_in, live_in-covers}
use osdns.Engine.Compensate.Confined.{compensate-Confined}

module _ {D I : Type 0} (rs : List ResourceId) where
  abbrev pub LiveInPost : Post D I (Outcome D I)
  LiveInPost g r = live_in rs r.1.state r.1.entry ≡ true

module _ {D I : Type 0} (b : Backend D) (o : Oracle D I) (rs : List ResourceId) where
  pub persist_live-Confined :
      (live : LiveRecord D I) (x : JournalRecord D I) (h : History D I)
      → covers rs x ≡ true
      → Safe o (confined rs) (LiveInPost rs) (persist_live live x) h
  unfolding persist_live
  persist_live-Confined live x h v = ground arith

  pub prepare_live-Confined :
      (live : LiveRecord D I) (x : JournalRecord D I) (h : History D I)
      → live_in rs live.state live.entry ≡ true
      → covers rs live.entry ≡ true
      → covers rs x ≡ true
      → Safe o (confined rs) (LiveInPost rs) (prepare_live live x) h
  unfolding prepare_live
  prepare_live-Confined live x h v w u = ground arith

  pub retain_compensation-Confined :
      (live : LiveRecord D I) (p : PendingRollback D) (resume : JournalRecord D I) (h : History D I)
      → covers rs live.entry ≡ true
      → covers rs resume ≡ true
      → Safe o (confined rs) (LiveInPost rs) (retain_compensation live p resume) h
  unfolding retain_compensation
  retain_compensation-Confined live p resume h v w = ground arith

  current_or_read-Confined :
      (x : JournalRecord D I) (m : VerifiedMutation D) (current : Option (PlatformSnapshot D))
      (h : History D I)
      → covers rs x ≡ true
      → Safe o
          (confined rs)
          (LiveInPost rs)
          (current_or_read b (record { entry = x; state = verified m }) m current)
          h
  unfolding current_or_read
  current_or_read-Confined x m none h v = ground arith
  current_or_read-Confined x m (some current) h v = ground arith

  after_compensation-Confined :
      (live : LiveRecord D I) (resume : JournalRecord D I) (c : Compensated D) (h : History D I)
      → covers rs live.entry ≡ true
      → covers rs resume ≡ true
      → Safe o (confined rs) (LiveInPost rs) (after_compensation b live resume c) h
  unfolding after_compensation
  after_compensation-Confined live resume (ok none, p) h v w = ground arith
  after_compensation-Confined live resume (ok (some s), p) h v w = ground arith
  after_compensation-Confined live resume (err e, p) h v w = ground arith

  resolve_state-Confined :
      (s : LiveState D I) (x : JournalRecord D I) (current : Option (PlatformSnapshot D))
      (h : History D I)
      → live_in rs s x ≡ true
      → Safe o
          (confined rs)
          (LiveInPost rs)
          (resolve_state b s (record { entry = x; state = s }) current)
          h
  unfolding resolve_state
  resolve_state-Confined (verified m) x current h v = current_or_read-Confined x m current h v
  resolve_state-Confined (compensating p resume) x current h v =
      Safe-bind o (confined rs) Any (LiveInPost rs) _ _ h
        (compensate-Confined b o rs x.identity p none h (ground arith))
        λ g c _.
          after_compensation-Confined (record { entry = x; state = compensating p resume }) resume c
            g (ground arith) (ground arith)
  resolve_state-Confined (repair n) x current h v = (refl, v)
  resolve_state-Confined _ x current h v = v

  resolve_from-Confined :
      (s : LiveState D I) (x : JournalRecord D I) (current : Option (PlatformSnapshot D))
      (h : History D I)
      → live_in rs s x ≡ true
      → Safe o
          (confined rs)
          (LiveInPost rs)
          (resolve_from b s (record { entry = x; state = s }) current)
          h
  unfolding resolve_from
  resolve_from-Confined (repair n) x current h v =
      (ground (arith, live_in-covers rs n x v), after_repair (o h (call_write x)))
    where
      after_repair :
          (r : Fallible (Unit {0}))
          → Safe o
              (confined rs)
              (LiveInPost rs)
              (elim r [
                | ok u ↦ resolve_state b n (record { entry = x; state = n }) current
                | err e ↦ ret (err e, record { entry = x; state = repair n })
              ])
              (record { call = call_write x; reply = r } ∷ h)
      after_repair (ok u) = resolve_state-Confined n x current _ v
      after_repair (err e) = v
  resolve_from-Confined committed x current h v = resolve_state-Confined committed x current h v
  resolve_from-Confined unmutated x current h v = resolve_state-Confined unmutated x current h v
  resolve_from-Confined prepared x current h v = resolve_state-Confined prepared x current h v
  resolve_from-Confined (verified m) x current h v =
      resolve_state-Confined (verified m) x current h v
  resolve_from-Confined (compensating p r) x current h v =
      resolve_state-Confined (compensating p r) x current h v

  pub resolve_live-Confined :
      (live : LiveRecord D I) (current : Option (PlatformSnapshot D)) (h : History D I)
      → live_in rs live.state live.entry ≡ true
      → Safe o (confined rs) (LiveInPost rs) (resolve_live b live current) h
  unfolding resolve_live
  resolve_live-Confined live current h v = resolve_from-Confined live.state live.entry current h v

  pub commit_verified-Confined :
      (live : LiveRecord D I) (m : VerifiedMutation D) (h : History D I)
      → covers rs live.entry ≡ true
      → Safe o (confined rs) (LiveInPost rs) (commit_verified b live m) h
  unfolding commit_verified
  commit_verified-Confined live m h v =
      resolve_live-Confined (record live { state = verified m }) none h v
