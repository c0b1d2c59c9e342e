-- ===== src/Engine/Monitor.antt =====
-- The rules that every call of the engine must obey, as a monitor over the history.
use osdns.Prelude.{Bool, true, false, Option, none, some, not, ◌&&◌}
use osdns.Platform.{PlatformSnapshot, ResourceStatus, same, NormalizedConfig, Backend, owns_current}
use osdns.Journal.{Phase, prepared, applied, JournalRecord}
use osdns.Tx.{call_apply_bound, call_restore_bound, call_unreachable}
use osdns.Tx.History.{last_read, last_status, journaled}
use osdns.Tx.Logic.{Permit}
use osdns.Platform.{plan_eq}

abbrev pub found_same : Option ResourceStatus → Bool
found_same (some same) = true
found_same _ = false

abbrev pub is_prepared : Phase → Bool
is_prepared prepared = true
is_prepared applied = false

-- The journal certainly holds a Prepared record that names `plan`.
abbrev pub announces : {D I : Type 0} → NormalizedConfig → Option (JournalRecord D I) → Bool
announces plan none = false
announces plan (some x) = is_prepared x.phase && plan_eq x.desired plan

module _ {D : Type 0} (b : Backend D) where
  abbrev pub owned_and_other :
      PlatformSnapshot D → PlatformSnapshot D → Option (PlatformSnapshot D) → Bool
  owned_and_other evidence target none = false
  owned_and_other evidence target (some current) =
      owns_current b evidence current && not (b.equivalent current target)

  -- What was read last, with no write since, is the target.
  abbrev pub reads_as : PlatformSnapshot D → Option (PlatformSnapshot D) → Bool
  reads_as target none = false
  reads_as target (some current) = b.equivalent current target

module _ {D I : Type 0} (b : Backend D) where
  -- A restore may be asked only of a resource whose incarnation was just found unchanged, and
  -- whose latest read is a state that the evidence owns and that is not yet the target. A plan may
  -- be applied only while the journal certainly announces it. No `unreachable!` is reached.
  abbrev pub monitor : Permit D I
  monitor h (call_restore_bound i evidence target) =
      found_same (last_status i.resource h)
      && owned_and_other b evidence target (last_read i.resource h)
  monitor h (call_apply_bound i expected plan) = announces plan (journaled i.resource h)
  monitor h call_unreachable = false
  monitor h c = true
