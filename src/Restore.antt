-- ===== src/Restore.antt =====
-- internal/controller/pvcrestore_controller.go: the reconciler of PVCRestore objects.
pub mod Objects
pub mod Steps
pub mod Reconcile
pub mod Panic
pub mod Progress
pub mod Rules
pub mod Marks
pub mod Safety
