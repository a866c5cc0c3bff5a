-- ===== src/Backup/Safety.antt =====
-- Every request that `Reconcile` of `PVCBackupReconciler` sends is justified by what it saw before.
pub mod Calls
pub mod Finished
pub mod Steps
pub mod Reconcile
