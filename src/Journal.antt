-- ===== src/Journal.antt =====
-- journal.rs: the records that the journal keeps.
pub mod Valid
use osdns.Prelude.{ℕ, Option}
use osdns.Text.{Text}
use osdns.Error.{BackendKind, ResourceId}
use osdns.Platform.{ResourceIdentity, PlatformSnapshot, NormalizedConfig}

pub data Phase : Type 0 where
  prepared applied : Phase

-- A lease id is the UUID's number.
pub record JournalRecord (D I : Type 0) : Type 0 where
  pub owner : Text
  pub lease_id : ℕ
  pub resource : ResourceId
  pub backend : BackendKind
  pub identity : ResourceIdentity I
  pub phase : Phase
  pub before : PlatformSnapshot D
  pub desired : NormalizedConfig
  pub applied : Option (PlatformSnapshot D)
