-- ===== src/Examples/Mutations.antt =====
-- The theorems on mutation and compensation, applied to concrete states.
use osdns.Prelude.{refl, none, some}
use osdns.Text.{text_eq, list_eq}
use osdns.Platform.{ip_eq, suffix_eq, option_bool_eq, plan_eq}
use osdns.Tx.Logic.{Safe}
use osdns.Engine.Monitor.{monitor}
use osdns.Engine.Compensate.{compensate, rollback_proven}
use osdns.Engine.Compensate.Guard.{
  CompensatePost, compensate-Safe, RollbackPost, rollback_proven-Safe,
}
use osdns.Engine.Mutate.{initial_points, mutate_and_verify}
use osdns.Engine.Mutate.Verified.{MutatePost, mutate_and_verify-Safe}
use osdns.Examples.{pending_back, plan, snapshot, identity, backend, world, announced, mutated}

compensate-Safe_example :
    Safe world
      (monitor backend)
      (CompensatePost backend identity (snapshot 0) mutated)
      (compensate backend identity pending_back none)
      mutated
compensate-Safe_example = compensate-Safe backend world identity pending_back none mutated

rollback_proven-Safe_example :
    Safe world
      (monitor backend)
      (RollbackPost backend identity (snapshot 0) mutated)
      (rollback_proven backend identity (some (snapshot 1)) (snapshot 0))
      mutated
rollback_proven-Safe_example =
    rollback_proven-Safe backend world identity (some (snapshot 1)) (snapshot 0) mutated

mutate_and_verify-Safe_example :
    Safe world
      (monitor backend)
      (MutatePost backend identity (snapshot 0) plan announced)
      (mutate_and_verify backend identity (snapshot 0) plan initial_points)
      announced
unfolding text_eq list_eq ip_eq suffix_eq plan_eq option_bool_eq
mutate_and_verify-Safe_example =
    mutate_and_verify-Safe backend world identity (snapshot 0) plan initial_points announced refl
