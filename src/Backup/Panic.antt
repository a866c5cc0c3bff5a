-- ===== src/Backup/Panic.antt =====
-- Nil dereferences and writes to a nil map in the reconciler of PVCBackups.
pub mod Quiet
pub mod Snapshot
pub mod Free
