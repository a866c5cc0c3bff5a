-- ===== src/Backup.antt =====
-- internal/controller/pvcbackup_controller.go: the reconciler of PVCBackup objects.
pub mod State
pub mod Running
pub mod Finished
pub mod Objects
pub mod Steps
pub mod Reconcile
pub mod Rules
pub mod Safety
pub mod Kept
pub mod Limit
pub mod Others
pub mod Restart
pub mod Listed
pub mod Places
pub mod Panic
pub mod Pace
pub mod Ending
pub mod Freed
pub mod Progress
