-- ===== src/Engine.antt =====
-- manager.rs: the transaction engine (`impl Inner`), in its children.
pub mod Monitor
pub mod Compensate
pub mod Mutate
pub mod Live
pub mod Restore
pub mod Recover
pub mod Transact
pub mod Update
pub mod Reconcile
pub mod Confined
pub mod Rules
