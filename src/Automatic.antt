-- ===== src/Automatic.antt =====
-- internal/controller/automatic.go: the creator of PVCBackup objects by schedule.
pub mod Schedule
pub mod Requests
pub mod Reconcile
pub mod Pace
pub mod Rules
pub mod Safety
pub mod Due
pub mod Never
pub mod Ignored
pub mod Watches
pub mod Handover
