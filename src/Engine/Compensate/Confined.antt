-- ===== src/Engine/Compensate/Confined.antt =====
-- Compensation is confined to its resource.
use osdns.Prelude.{◌≡◌, true, Option, none, some, List, arith}
use osdns.Error.{ResourceId}
use osdns.Platform.{ResourceIdentity, PlatformSnapshot, Backend}
use osdns.Tx.{TxPoint, History}
use osdns.Tx.Logic.{Oracle, Any, Safe, Safe-bind}
use osdns.Engine.Compensate.{PendingRollback, compensate, rollback_proven}
use osdns.Engine.Confined.{among, confined}

module _ {D I : Type 0} (b : Backend D) (o : Oracle D I) (rs : List ResourceId) where
  pub compensate-Confined :
      (i : ResourceIdentity I) (p : PendingRollback D) (point : Option TxPoint) (h : History D I)
      → among rs i.resource ≡ true
      → Safe o (confined rs) Any (compensate b i p point) h
  unfolding compensate
  compensate-Confined i p none h a = ground arith
  compensate-Confined i p (some x) h a = ground arith

  pub rollback_proven-Confined :
      (i : ResourceIdentity I) (proof : Option (PlatformSnapshot D)) (target : PlatformSnapshot D)
      (h : History D I)
      → among rs i.resource ≡ true
      → Safe o (confined rs) Any (rollback_proven b i proof target) h
  unfolding rollback_proven
  rollback_proven-Confined i proof target h a =
      Safe-bind o (confined rs) Any Any _ _ h
        (compensate-Confined i (record { evidence = proof; target = target }) none h a)
        (λ g r _. tt)
