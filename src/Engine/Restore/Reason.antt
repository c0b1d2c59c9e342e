-- ===== src/Engine/Restore/Reason.antt =====
-- Why a journal record may be removed, and when it is known to be gone.
use mathlib.Core.Bool.{false≢true}
use osdns.Prelude.{◌≡◌, ◌∷◌, Bool, true, false, Option, some, List, [], ◌&&◌, ◌||◌, arith}
use osdns.Text.{text_eq_eq}
use osdns.Error.{ok, err}
use osdns.Platform.{ResourceStatus, gone, replaced, Backend}
use osdns.Journal.{JournalRecord}
use osdns.Tx.{History}
use osdns.Tx.History.{
  last_read, last_status, read_gone, journal_of, cleared_last, JournalEvent, wrote, lost, cleared,
}
use osdns.Tx.Logic.{Post}
use osdns.Engine.Monitor.{reads_as}
use osdns.Engine.Confined.{is_cleared}
use osdns.Engine.Live.{LiveState, committed, compensating, repair, Outcome}
use osdns.Engine.Live.Synced.{shaped, bound}

abbrev pub is_departed : Option ResourceStatus → Bool
is_departed (some gone) = true
is_departed (some replaced) = true
is_departed _ = false

pub bound_eq :
    {D I : Type 0} (x : JournalRecord D I) → bound x ≡ true → x.identity.resource ≡ x.resource
bound_eq x v = λ i. record { text = text_eq_eq x.identity.resource.text x.resource.text v i }

pub shaped-bound :
    {D I : Type 0} (s : LiveState D I) (x : JournalRecord D I) → shaped s x ≡ true → bound x ≡ true
shaped-bound committed x v = ground arith
shaped-bound (compensating p r) x v = ground arith
shaped-bound (repair committed) x v = ground arith
shaped-bound (repair (compensating p r)) x v = ground arith
shaped-bound (repair (repair n)) x v = ground arith
shaped-bound (repair _) x v = v
shaped-bound _ x v = v

pub cleared_last-is_cleared :
    {D I : Type 0} (x : JournalRecord D I) (js : List (JournalEvent D I))
    → cleared_last x js ≡ true
    → is_cleared x.resource js ≡ true
cleared_last-is_cleared x [] c = absurd (false≢true c)
cleared_last-is_cleared x (wrote y ∷ js) c = absurd (false≢true c)
cleared_last-is_cleared x (lost s ∷ js) c = absurd (false≢true c)
cleared_last-is_cleared x (cleared l s ∷ js) c = ground arith

module _ {D I : Type 0} (b : Backend D) where
  -- The record is gone from the journal, and there is a reason: the native resource departed, or
  -- what was read last, with no write since, is the state from before the lease.
  abbrev pub ended : JournalRecord D I → History D I → Bool
  ended x g =
      cleared_last x (journal_of g)
      && (is_departed (last_status x.resource g)
          || read_gone x.resource g
          || reads_as b x.before (last_read x.resource g))

  abbrev pub RestorePost : Post D I (Outcome D I)
  RestorePost g (ok u, live) = ended live.entry g ≡ true
  RestorePost g (err e, live) = shaped live.state live.entry ≡ true

  -- Why the record may be removed.
  abbrev pub reason : JournalRecord D I → History D I → Bool
  reason x h =
      is_departed (last_status x.resource h)
      || read_gone x.resource h
      || reads_as b x.before (last_read x.resource h)
