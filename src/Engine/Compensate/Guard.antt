-- ===== src/Engine/Compensate/Guard.antt =====
-- Compare before restore: when `compensate` writes, and what its success means.
use osdns.Prelude.{◌≡◌, refl, Bool, true, false, Option, none, some, ◌&&◌, arith}
use osdns.Text.{text_eq_refl}
use osdns.Error.{ResourceId, Fallible, ok, err}
use osdns.Platform.{ResourceIdentity, PlatformSnapshot, Backend}
use osdns.Tx.{TxPoint, History}
use osdns.Tx.History.{last_read, last_status, journal_of}
use osdns.Tx.Logic.{Oracle, Post, Safe, Safe-bind}
use osdns.Engine.Monitor.{monitor, found_same, reads_as}
use osdns.Engine.Compensate.{
  PendingRollback, MutationResidue, unchanged, restored, pending, Compensated, compensate,
  rollback_proven, residue_of,
}

module _ {D I : Type 0} (b : Backend D) where
  -- The incarnation was checked and the latest read, with no write since, is the target.
  abbrev pub settled : ResourceId → PlatformSnapshot D → History D I → Bool
  settled r target g = found_same (last_status r g) && reads_as b target (last_read r g)

  abbrev pub settled_if_ok :
      ResourceId → PlatformSnapshot D → History D I → Fallible (Option (PlatformSnapshot D)) → Bool
  settled_if_ok r target g (ok identity) = settled r target g
  settled_if_ok r target g (err e) = true

  -- The journal is as it was, the target too, and success means that the target is in place.
  abbrev pub CompensatePost :
      ResourceIdentity I → PlatformSnapshot D → History D I → Post D I (Compensated D)
  CompensatePost i target h g (outcome, p) =
      (journal_of g ≡ journal_of h)
      × (settled_if_ok i.resource target g outcome ≡ true)
      × (p.target ≡ target)

  -- For every backend and every answer of the world, `compensate` obeys the monitor: it restores
  -- only after the incarnation was found unchanged and only over a latest read that the evidence
  -- owns and that is not yet the target. `Ok` means that the incarnation was last found unchanged
  -- and that the latest read, with no write since, is equivalent to the target. The journal is not
  -- touched and the target stays.
  pub compensate-Safe :
      (o : Oracle D I) (i : ResourceIdentity I) (p : PendingRollback D) (point : Option TxPoint)
      (h : History D I)
      → Safe o (monitor b) (CompensatePost i p.target h) (compensate b i p point) h
  unfolding compensate
  compensate-Safe o i p none h = ground (arith, text_eq_refl i.resource.text)
  compensate-Safe o i p (some x) h = ground (arith, text_eq_refl i.resource.text)

  abbrev settled_if_restored :
      ResourceId → PlatformSnapshot D → History D I → MutationResidue D → Bool
  settled_if_restored r target g unchanged = false
  settled_if_restored r target g (restored identity) = settled r target g
  settled_if_restored r target g (pending p) = true

  abbrev pub RollbackPost :
      ResourceIdentity I → PlatformSnapshot D → History D I → Post D I (MutationResidue D)
  RollbackPost i target h g residue =
      (journal_of g ≡ journal_of h) × (settled_if_restored i.resource target g residue ≡ true)

  -- `rollback_proven` obeys the monitor and does not touch the journal. It never gives
  -- `Unchanged`, and `Restored` means that the incarnation was last found unchanged and that the
  -- latest read, with no write since, is equivalent to the target.
  pub rollback_proven-Safe :
      (o : Oracle D I) (i : ResourceIdentity I) (proof : Option (PlatformSnapshot D))
      (target : PlatformSnapshot D) (h : History D I)
      → Safe o (monitor b) (RollbackPost i target h) (rollback_proven b i proof target) h
  unfolding rollback_proven
  rollback_proven-Safe o i proof target h =
      Safe-bind o (monitor b) (CompensatePost i target h) _ _ _ h
        (compensate-Safe o i (record { evidence = proof; target = target }) none h)
        λ g r c. residue-Post g r c
    where
      residue-Post :
          (g : History D I) (r : Compensated D)
          → CompensatePost i target h g r
          → RollbackPost i target h g (residue_of r)
      residue-Post g (ok identity, p) c = (c.0, c.1)
      residue-Post g (err e, p) c = (c.0, refl)
