-- ===== src/Backup/Progress.antt =====
-- The progress of a backup on an API that works.
pub mod Phase
pub mod Run
pub mod Here
pub mod Rest
pub mod Refines
pub mod Turns
pub mod Fair
pub mod Served
pub mod Cleanup
