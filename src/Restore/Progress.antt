-- ===== src/Restore/Progress.antt =====
-- The progress of a restore on an API that works.
pub mod Phase
pub mod Run
pub mod Rest
pub mod Refines
pub mod Turns
