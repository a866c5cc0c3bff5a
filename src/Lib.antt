-- ===== src/Lib.antt =====
-- backsnap: a Kubernetes operator that backs up and restores PersistentVolumeClaims (PVCs).
--
-- The operator has three reconcilers. The automatic creator (internal/controller/automatic.go) makes
-- a PVCBackup for a PVC when its schedule says so. The PVCBackup reconciler
-- (internal/controller/pvcbackup_controller.go) takes a PVCBackup through a VolumeSnapshot, a
-- temporary PVC made from it and a Job that runs restic, cleans up, and deletes the PVCBackup after
-- its time to live; it lets a limited number of backups run at once. The PVCRestore reconciler
-- (internal/controller/pvcrestore_controller.go) makes a PVC and a Job that restores into it. They
-- interact through the Kubernetes API only: through the PVCBackups, and through annotations on PVCs
-- that keep the creator away from temporary PVCs.
--
-- The files:
--   Base          texts, lists, maps and integers over the native numbers; sets are lists.
--   Go            Go's time.Time and time.Duration (nanoseconds, as integers; differences saturate to
--                 64 bits as in Go), %d, slices.Sort on strings, package strings, and the helpers of
--                 samber/lo.
--   Kube, Api     the Kubernetes objects with the fields in use, and api/v1alpha1: PVCBackup and
--                 PVCRestore. A nil pointer is `none`.
--   Client        the Kubernetes client, the clock and the poll, and the history of requests;
--                 Client/Server is an API that works, as a store of objects, and Client/Machine the
--                 rules that run a reconciler on it.
--   Exec          actions: a state, and a `return` on the way; rules for invariants of actions and
--                 for what they add to a history.
--   Settings      internal/controller/util.go: BackupSettings, storage classes, requeueAfter,
--                 resticEnv; and `ignores`, the test of the namespace lists, of which the
--                 reconcilers have four copies that agree.
--   Backup        PVCBackupReconciler. State has its fields and CurrentRunningBackups; Running is
--                 FindCurrentRunningBackups; Finished, Steps and Objects are the parts of Reconcile
--                 in their order, which Backup.Reconcile composes. Progress/Phase is its abstract
--                 view: a backup in one of seven phases, and what a reconcile and the cluster do to
--                 the phase; Progress/Turns has the runs in which they take turns.
--   Restore       PVCRestoreReconciler: Objects, Steps and Reconcile likewise, and Progress/Phase its
--                 abstract view, with Progress/Turns as above.
--   Automatic     AutomaticPVCBackupCreator: Schedule, Requests (pvcToRequest, namespaceToRequests
--                 and the index of child backups) and Reconcile.
--   Flags         cmd/main.go: the flags, the lists of namespaces, -restic-env and the configurations.
--   Manager, Main the manager of controller-runtime as a parameter, and main from the manager on, with
--                 SetupWithManager of the three reconcilers (Main/Program).
--   Tests         a cluster in memory, and the theorems on concrete inputs.
-- Rules, Safety, Kept, Limit, Others, Restart, Listed, Places, Ending, Freed, Panic, Pace, Due, Never,
-- Ignored, Watches, Handover and Marks, and the rest of Backup/Progress and Restore/Progress, and
-- Main/Acts and Main/Plan hold what is proved of them.
--
-- Parameters. Code of other packages is a parameter: the Kubernetes client with its world
-- (Client), the helpers of samber/lo (Go/Lo), the schedules of hashicorp/cronexpr and the float
-- arithmetic of the tolerance (Automatic/Schedule). A call of the client may return anything, an
-- error included, and may change the world in any way, since other controllers write to the same
-- cluster; where a theorem is about requests, a world only has to record them (Client/History), and
-- where it is about progress, the API has to work while a reconcile runs (Client/Server). The
-- parts of Go's own library in use are written out in Go; texts are taken to be valid UTF-8. No loop
-- needs fuel: the loops of the source run over lists.
--
-- Not modelled: logging, the parsing of the command line by package flag, the default of a
-- reconciler's Clock, the scheme of API types, generated deep copies, restic.sh and the chart. A
-- reconciler runs one reconcile at a time, as controller-runtime does by default.
pub mod Base
pub mod Go
pub mod Kube
pub mod Api
pub mod Client
pub mod Exec
pub mod Settings
pub mod Backup
pub mod Restore
pub mod Automatic
pub mod Flags
pub mod Manager
pub mod Main
mod Tests
