-- ===== src/Engine/Live/Resolved.antt =====
-- `resolve_live` and `commit_verified` keep the live record in agreement with the journal.
use mathlib.Core.Bool.{false≢true}
use osdns.Prelude.{◌≡◌, refl, true, Option, none, some, ◌∷◌, ◌&&◌, arith}
use osdns.Text.{text_eq_refl}
use osdns.Error.{Fallible, ok, err}
use osdns.Platform.{PlatformSnapshot, Backend, VerifiedMutation}
use osdns.Journal.{JournalRecord}
use osdns.Tx.{History, Tx, call_write, ret}
use osdns.Tx.History.{same_resource, journaled}
use osdns.Tx.Logic.{Oracle, Safe, Safe-bind, Safe-mono}
use osdns.Engine.Monitor.{monitor}
use osdns.Engine.Compensate.{Compensated}
use osdns.Engine.Compensate.Guard.{CompensatePost, compensate-Safe}
use osdns.Engine.Live.{
  LiveState, LiveRecord, committed, unmutated, prepared, verified, compensating, repair, Outcome,
  current_or_read, after_compensation, resolve_state, resolve_from, resolve_live, commit_verified,
}
use osdns.Engine.Live.Synced.{
  Kept, bound, backed, shaped, IsSynced, unrepaired, SyncedPost, ResolvePost,
  SyncedPost-ResolvePost,
}

module _ {D I : Type 0} (b : Backend D) (o : Oracle D I) where
  current_or_read-Safe :
      (x : JournalRecord D I) (m : VerifiedMutation D) (current : Option (PlatformSnapshot D))
      (h : History D I)
      → bound x ≡ true
      → Safe o
          (monitor b)
          SyncedPost
          (current_or_read b (record { entry = x; state = verified m }) m current)
          h
  unfolding current_or_read
  current_or_read-Safe x m none h v = ground (arith, text_eq_refl x.resource.text)
  current_or_read-Safe x m (some current) h v = ground (arith, text_eq_refl x.resource.text)

  after_compensation-Safe :
      (live : LiveRecord D I) (resume : JournalRecord D I) (c : Compensated D) (h : History D I)
      → bound live.entry && bound resume && same_resource resume.resource live.entry.resource ≡ true
      → Safe o (monitor b) SyncedPost (after_compensation b live resume c) h
  unfolding after_compensation
  after_compensation-Safe live resume (ok none, p) h v =
      ground (arith, text_eq_refl resume.resource.text, text_eq_refl live.entry.resource.text)
  after_compensation-Safe live resume (ok (some s), p) h v =
      ground (arith, text_eq_refl resume.resource.text, text_eq_refl live.entry.resource.text)
  after_compensation-Safe live resume (err e, p) h v =
      ground (arith, text_eq_refl resume.resource.text, text_eq_refl live.entry.resource.text)

  from_synced :
      (Held : Type 0) (m : Tx D I (Outcome D I)) (h : History D I)
      → Safe o (monitor b) SyncedPost m h
      → Safe o (monitor b) (ResolvePost Held) m h
  from_synced Held m h s =
      Safe-mono o (monitor b) SyncedPost (ResolvePost Held) m h s (SyncedPost-ResolvePost Held)

  -- What the states other than a repair do.
  resolve_state-Safe :
      (s : LiveState D I) (x : JournalRecord D I) (current : Option (PlatformSnapshot D))
      (h : History D I)
      → unrepaired s ≡ true
      → shaped s x ≡ true
      → Safe o
          (monitor b)
          (ResolvePost (Kept s x h))
          (resolve_state b s (record { entry = x; state = s }) current)
          h
  unfolding resolve_state
  resolve_state-Safe committed x current h u v = ((λ k. k), v, refl)
  resolve_state-Safe unmutated x current h u v = ((λ k. k), v, refl)
  resolve_state-Safe prepared x current h u v = ((λ k. k), v, refl)
  resolve_state-Safe (verified m) x current h u v =
      from_synced _ _ h (current_or_read-Safe x m current h v)
  resolve_state-Safe (compensating p resume) x current h u v = from_synced _ _ h (
      Safe-bind o (monitor b) (CompensatePost b x.identity p.target h) _ _ _ h
        (compensate-Safe b o x.identity p none h)
        λ g c _.
          after_compensation-Safe (record { entry = x; state = compensating p resume }) resume c g
            v)
  resolve_state-Safe (repair n) x current h u v = absurd (false≢true u)

  backed-unrepaired :
      (s : LiveState D I) (x : JournalRecord D I) → backed s x ≡ true → unrepaired s ≡ true
  backed-unrepaired committed x h = refl
  backed-unrepaired (repair n) x h = absurd (false≢true h)
  backed-unrepaired _ x h = refl

  backed-shaped :
      (s : LiveState D I) (x : JournalRecord D I) → backed s x ≡ true → shaped s x ≡ true
  backed-shaped committed x h = h
  backed-shaped (repair n) x h = absurd (false≢true h)
  backed-shaped _ x h = h

  Kept-journaled :
      (s : LiveState D I) (x : JournalRecord D I) (h : History D I)
      → journaled x.resource h ≡ some x
      → Kept s x h
  Kept-journaled committed x h j = j
  Kept-journaled (verified m) x h j = tt
  Kept-journaled (repair n) x h j = tt
  Kept-journaled _ x h j = j

  after_repair-Safe :
      (n : LiveState D I) (x : JournalRecord D I) (current : Option (PlatformSnapshot D))
      (r : Fallible (Unit {0})) (h : History D I)
      → backed n x ≡ true
      → Safe o
          (monitor b)
          (ResolvePost Unit)
          (elim r [
            | ok u ↦ resolve_state b n (record { entry = x; state = n }) current
            | err e ↦ ret (err e, record { entry = x; state = repair n })
          ])
          (record { call = call_write x; reply = r } ∷ h)
  after_repair-Safe n x current (ok u) h v =
      Safe-mono o (monitor b) _ (ResolvePost Unit) _ _
        (resolve_state-Safe n x current _ (backed-unrepaired n x v) (backed-shaped n x v))
        λ g r p. ((λ _. p.0 (Kept-journaled n x _ (rw (text_eq_refl x.resource.text)))), p.1, p.2)
  after_repair-Safe n x current (err f) h v = ((λ _. tt), v, refl)

  resolve_from-Safe :
      (s : LiveState D I) (x : JournalRecord D I) (current : Option (PlatformSnapshot D))
      (h : History D I)
      → shaped s x ≡ true
      → Safe o
          (monitor b)
          (ResolvePost (Kept s x h))
          (resolve_from b s (record { entry = x; state = s }) current)
          h
  unfolding resolve_from
  resolve_from-Safe (repair n) x current h v =
      (refl, after_repair-Safe n x current (o h (call_write x)) h v)
  resolve_from-Safe committed x current h v = resolve_state-Safe committed x current h refl v
  resolve_from-Safe unmutated x current h v = resolve_state-Safe unmutated x current h refl v
  resolve_from-Safe prepared x current h v = resolve_state-Safe prepared x current h refl v
  resolve_from-Safe (verified m) x current h v = resolve_state-Safe (verified m) x current h refl v
  resolve_from-Safe (compensating p r) x current h v =
      resolve_state-Safe (compensating p r) x current h refl v

  -- `resolve_live` obeys the monitor, so that it reaches no `unreachable!`. It keeps record and
  -- journal in agreement, and after `Ok` neither a mutation nor a publication is outstanding.
  pub resolve_live-Safe :
      (live : LiveRecord D I) (current : Option (PlatformSnapshot D)) (h : History D I)
      → shaped live.state live.entry ≡ true
      → Safe o
          (monitor b)
          (ResolvePost (Kept live.state live.entry h))
          (resolve_live b live current)
          h
  unfolding resolve_live
  resolve_live-Safe live current h v = resolve_from-Safe live.state live.entry current h v

  -- From a live record that agrees with the journal, `resolve_live` obeys the monitor (so its
  -- `unreachable!` is not reached) and the record agrees with the journal again, whatever fails.
  -- `Ok` means that the state is `Committed` or `Unmutated`: no mutation and no publication is
  -- outstanding.
  pub resolve_live-IsSynced :
      (live : LiveRecord D I) (current : Option (PlatformSnapshot D)) (h : History D I)
      → IsSynced live h
      → Safe o (monitor b) SyncedPost (resolve_live b live current) h
  resolve_live-IsSynced live current h v =
      Safe-mono o (monitor b) _ SyncedPost _ h (resolve_live-Safe live current h v.shape)
        λ g r p. (record { kept = p.0 v.kept; shape = p.1 }, p.2)

  pub commit_verified-Safe :
      (live : LiveRecord D I) (m : VerifiedMutation D) (h : History D I)
      → bound live.entry ≡ true
      → Safe o (monitor b) SyncedPost (commit_verified b live m) h
  unfolding commit_verified
  commit_verified-Safe live m h v =
      resolve_live-IsSynced (record live { state = verified m }) none h
        (record { kept = tt; shape = v })
