-- ===== src/Tests.antt =====
-- Concrete parameters, and the theorems on concrete inputs.
mod Helpers
mod Cluster
mod Samples
mod Store
mod Backups
mod Restores
mod Schedules
mod Sound
mod Progress
mod Restoring
mod Command
mod Startup
mod Search
mod Handover
