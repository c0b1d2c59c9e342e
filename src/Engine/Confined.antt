-- ===== src/Engine/Confined.antt =====
-- Which resources a program mutates or journals, and what follows for the others and for locks.
pub mod Frames
use osdns.Prelude.{
  ◌≡◌, refl, Bool, true, false, Option, none, some, List, [], ◌∷◌, ◌&&◌, ◌||◌, not, if◌then◌else◌,
  arith,
}
use osdns.Text.{text_eq_eq, text_eq_refl}
use osdns.Error.{ResourceId, Fallible, ok, err}
use osdns.Journal.{JournalRecord}
use osdns.Tx.{
  Call, call_write, call_remove, call_apply_bound, call_restore_bound, call_acquire,
  call_try_acquire, call_release, History, Tx, ret, ask,
}
use osdns.Tx.History.{same_resource, journal_of, JournalEvent, wrote, lost, cleared, locked}
use osdns.Tx.Logic.{Oracle, Permit, Post, Safe, after}
use osdns.Engine.Live.{LiveState, compensating, repair}

abbrev pub among : List ResourceId → ResourceId → Bool
among [] r = false
among (s ∷ ss) r = same_resource s r || among ss r

module _ {D I : Type 0} (rs : List ResourceId) where
  -- Native state and journal records only of the resources `rs`, and no lock is touched.
  abbrev pub confined : Permit D I
  confined h (call_write x) = among rs x.resource
  confined h (call_remove l s) = among rs s
  confined h (call_apply_bound i expected plan) = among rs i.resource
  confined h (call_restore_bound i evidence target) = among rs i.resource
  confined h (call_acquire s) = false
  confined h (call_try_acquire s) = false
  confined h (call_release s) = false
  confined h c = true

  abbrev pub covers : JournalRecord D I → Bool
  covers x = among rs x.resource && among rs x.identity.resource

  -- The record and what it resumes with.
  abbrev pub live_in : LiveState D I → JournalRecord D I → Bool
  live_in (compensating p resume) x = covers x && covers resume
  live_in (repair next) x = live_in next x
  live_in _ x = covers x

  pub live_in-covers :
      (s : LiveState D I) (x : JournalRecord D I) → live_in s x ≡ true → covers x ≡ true
  live_in-covers (compensating p resume) x v = ground arith
  live_in-covers (repair n) x v = live_in-covers n x v
  live_in-covers _ x v = v

module _ {D I : Type 0} where
  -- The latest event of a resource in the journal is that a record of it was removed.
  abbrev pub is_cleared : ResourceId → List (JournalEvent D I) → Bool
  is_cleared r [] = false
  is_cleared r (wrote x ∷ js) = if same_resource x.resource r then false else is_cleared r js
  is_cleared r (lost s ∷ js) = if same_resource s r then false else is_cleared r js
  is_cleared r (cleared l s ∷ js) = if same_resource s r then true else is_cleared r js

  abbrev pub all_locked : List ResourceId → History D I → Bool
  all_locked [] h = true
  all_locked (r ∷ rs) h = locked r h && all_locked rs h

  -- Native state and the journal are touched only under the resource's lock.
  abbrev pub guarded : Permit D I
  guarded h (call_write x) = locked x.resource h
  guarded h (call_remove l s) = locked s h
  guarded h (call_apply_bound i expected plan) = locked i.resource h
  guarded h (call_restore_bound i evidence target) = locked i.resource h
  guarded h c = true

  -- No lock changed, and what is known of the records of resources outside `rs`.
  abbrev pub SealedPost : {A : Type 0} → List ResourceId → History D I → Post D I A → Post D I A
  SealedPost rs h post g a =
      ((r : ResourceId) → locked r g ≡ locked r h)
      × ((r : ResourceId)
          → among rs r ≡ false
          → is_cleared r (journal_of g) ≡ is_cleared r (journal_of h))
      × post g a
