-- ===== src/Engine/Live/Synced.antt =====
-- A live record and the journal agree: unless a repair is due, the journal certainly holds the
-- record, and only a record with verified state counts as committed.
use mathlib.Core.Bool.{false≢true}
use osdns.Prelude.{◌≡◌, Bool, true, false, Option, none, some, ◌&&◌, arith}
use osdns.Text.{text_eq_refl}
use osdns.Error.{Fallible, ok, err}
use osdns.Platform.{Backend}
use osdns.Journal.{Phase, applied, JournalRecord}
use osdns.Tx.{History}
use osdns.Tx.History.{same_resource, journaled}
use osdns.Tx.Logic.{Oracle, Post, Safe, Safe-mono}
use osdns.Engine.Monitor.{monitor}
use osdns.Engine.Compensate.{PendingRollback}
use osdns.Engine.Live.{
  LiveState, LiveRecord, committed, unmutated, prepared, verified, compensating, repair, Outcome,
  persist_live, prepare_live, retain_compensation, state_after,
}

abbrev pub is_applied : Phase → Bool
is_applied applied = true
is_applied Phase.prepared = false

abbrev pub is_some {ℓ} : {A : Type ℓ} → Option A → Bool
is_some none = false
is_some (some a) = true

module _ {D I : Type 0} where
  -- Where the record must be in the journal. A failed finalization of a verified mutation leaves it
  -- open which of two records is there, and is tried again.
  abbrev pub Kept : LiveState D I → JournalRecord D I → History D I → Type 0
  Kept (repair n) x h = Unit {0}
  Kept committed x h = journaled x.resource h ≡ some x
  Kept unmutated x h = journaled x.resource h ≡ some x
  Kept prepared x h = journaled x.resource h ≡ some x
  Kept (verified m) x h = Unit {0}
  Kept (compensating p r) x h = journaled x.resource h ≡ some x

  -- The identity of a record is that of its resource.
  abbrev pub bound : JournalRecord D I → Bool
  bound x = same_resource x.identity.resource x.resource

  -- `Committed` stands for an applied phase with its snapshot, and the record to resume with after
  -- a compensation is one of the same resource.
  abbrev pub backed : LiveState D I → JournalRecord D I → Bool
  backed committed x = bound x && is_applied x.phase && is_some x.applied
  backed (compensating p r) x = bound x && bound r && same_resource r.resource x.resource
  backed (repair n) x = false
  backed _ x = bound x

  -- A repair waits for one state, which is no repair.
  abbrev pub shaped : LiveState D I → JournalRecord D I → Bool
  shaped (repair n) x = backed n x
  shaped committed x = backed committed x
  shaped (compensating p r) x = backed (compensating p r) x
  shaped _ x = bound x

  pub record IsSynced (live : LiveRecord D I) (h : History D I) : Type 0 where
    pub kept : Kept live.state live.entry h
    pub shape : shaped live.state live.entry ≡ true

  -- No native mutation and no publication is outstanding.
  abbrev pub quiet : LiveState D I → Bool
  quiet committed = true
  quiet unmutated = true
  quiet _ = false

  abbrev pub unrepaired : LiveState D I → Bool
  unrepaired (repair n) = false
  unrepaired _ = true

  abbrev pub quiet_if_ok : Fallible (Unit {0}) → LiveState D I → Bool
  quiet_if_ok (ok u) s = quiet s
  quiet_if_ok (err e) s = true

  abbrev pub SyncedPost : Post D I (Outcome D I)
  SyncedPost g (r, live) = IsSynced live g × (quiet_if_ok r live.state ≡ true)

  -- The agreement is kept if it held, and the shape in any case.
  abbrev pub ResolvePost : Type 0 → Post D I (Outcome D I)
  ResolvePost Held g (r, live) =
      (Held → Kept live.state live.entry g)
      × (shaped live.state live.entry ≡ true)
      × (quiet_if_ok r live.state ≡ true)

  pub SyncedPost-ResolvePost :
      (Held : Type 0) (g : History D I) (r : Outcome D I) → SyncedPost g r → ResolvePost Held g r
  SyncedPost-ResolvePost Held g (r, live) p = ((λ _. p.0.kept), p.0.shape, p.1)

  -- Committed, or to be once the journal is repaired.
  abbrev pub commits : LiveState D I → Bool
  commits committed = true
  commits (repair n) = commits n
  commits _ = false

  abbrev pub PersistedPost : JournalRecord D I → Post D I (Outcome D I)
  PersistedPost x g r = SyncedPost g r × (r.1.entry ≡ x) × (commits r.1.state ≡ is_applied x.phase)

  abbrev pub IsPublishable : JournalRecord D I → Type 0
  IsPublishable x = shaped (state_after x.phase) x ≡ true

module _ {D I : Type 0} (b : Backend D) (o : Oracle D I) where
  -- For a candidate that has the shape of the state its phase stands for, `persist_live` obeys the
  -- monitor and leaves the candidate as the record, in agreement with the journal, a failed
  -- publication as a repair. The state is `Committed`, or a repair towards it, exactly when the
  -- candidate is Applied; `Ok` means that it is `Committed` or `Unmutated`.
  pub persist_live-Safe :
      (live : LiveRecord D I) (x : JournalRecord D I) (h : History D I)
      → IsPublishable x
      → Safe o (monitor b) (PersistedPost x) (persist_live live x) h
  unfolding persist_live
  persist_live-Safe live x h s = ground (arith, text_eq_refl x.resource.text)

  pub persist_live-Synced :
      (live : LiveRecord D I) (x : JournalRecord D I) (h : History D I)
      → IsPublishable x
      → Safe o (monitor b) SyncedPost (persist_live live x) h
  persist_live-Synced live x h s =
      Safe-mono o (monitor b) (PersistedPost x) SyncedPost _ h (persist_live-Safe live x h s)
        (λ g r p. p.0)

  pub retain_compensation-Safe :
      (live : LiveRecord D I) (p : PendingRollback D) (resume : JournalRecord D I) (h : History D I)
      → bound live.entry && bound resume && same_resource resume.resource live.entry.resource ≡ true
      → Safe o (monitor b) (λ g r. IsSynced r.1 g) (retain_compensation live p resume) h
  unfolding retain_compensation
  retain_compensation-Safe live p resume h v = ground (arith, text_eq_refl live.entry.resource.text)

  abbrev pub PreparePost : LiveRecord D I → JournalRecord D I → Post D I (Outcome D I)
  PreparePost live x g (ok u, live') =
      IsSynced live' g
      × (live' ≡ record { entry = x; state = unmutated })
      × (journaled x.resource g ≡ some x)
  PreparePost live x g (err e, live') = IsSynced live' g × (live'.entry ≡ live.entry)

  prepare_state-Safe :
      (s : LiveState D I) (y x : JournalRecord D I) (h : History D I)
      → shaped s y ≡ true
      → unrepaired s ≡ true
      → bound x ≡ true
      → Safe o
          (monitor b)
          (PreparePost (record { entry = y; state = s }) x)
          (prepare_live (record { entry = y; state = s }) x)
          h
  unfolding prepare_live
  prepare_state-Safe committed y x h v u w =
      ground (arith, text_eq_refl x.resource.text, text_eq_refl y.resource.text)
  prepare_state-Safe (repair n) y x h v u w = absurd (false≢true u)
  prepare_state-Safe _ y x h v u w =
      ground (arith, text_eq_refl x.resource.text, text_eq_refl y.resource.text)

  -- From a live record that has the shape of its state and awaits no repair, and for a candidate
  -- whose identity names its resource, `prepare_live` obeys the monitor. `Ok` means that the
  -- record is the candidate in state `Unmutated` and that the journal holds it. An error keeps the
  -- old record, in agreement with the journal or marked for repair.
  pub prepare_live-Safe :
      (live : LiveRecord D I) (x : JournalRecord D I) (h : History D I)
      → shaped live.state live.entry ≡ true
      → unrepaired live.state ≡ true
      → bound x ≡ true
      → Safe o (monitor b) (PreparePost live x) (prepare_live live x) h
  prepare_live-Safe live x h v u w = prepare_state-Safe live.state live.entry x h v u w
