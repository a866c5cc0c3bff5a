-- ===== src/Tests/Sound.antt =====
-- The panic of the reconciler of PVCBackups: a snapshot that is ready, but has no restore size.
use backsnap.Base.{◌≡◌, refl, none, some, true, [], ◌∷◌, add}
use mathlib.Core.Option
use backsnap.Base.Int.{pos}
use backsnap.Kube.{VolumeSnapshot}
use backsnap.Exec.{panicked, ◌>>=◌}
use backsnap.Settings.{ignores}
use backsnap.Client.Actions.{or_create}
use backsnap.Backup.Running.{find_current_running_backups}
use backsnap.Backup.Steps.{
  admit, mark_started, ensure_snapshot, is_ready, ensure_snapshot_pvc, create_snapshot_pvc,
}
use backsnap.Backup.State.{State, call, backup_is_running, occupy, backup_qualified_name}
use backsnap.Backup.Reconcile.{
  reconcile, find_when_unset, reconcile_backup, fetch_backup, reconcile_unfinished,
}
use backsnap.Backup.Panic.Quiet.{KeepsStart}
use backsnap.Backup.Panic.Snapshot.{UnsizedSeen}
use backsnap.Backup.Panic.Free.{panic-UnsizedSeen}
use backsnap.Tests.Helpers.{plain_lo}
use backsnap.Tests.Cluster.{cluster, cluster-IsRecorded}
use backsnap.Tests.Samples.{key, unset, backup, ready, world, config}

abbrev unsized : VolumeSnapshot
unsized = record (ready "first") {
  status = some (record { ready_to_use = some true; restore_size = none });
}

-- The backup has been started, and its snapshot is ready.
abbrev started : State cluster
started = record {
  world = record world {
    backups = backup "first" 1 (record unset { started_at = some (pos 2) }) ∷ [];
    snapshots = unsized ∷ [];
  };
  current_running_backups = none;
}

panics : (reconcile cluster plain_lo config (key "first") started).0 ≡ panicked
unfolding reconcile ◌>>=◌ find_when_unset find_current_running_backups call backup_is_running occupy
    ignores reconcile_backup fetch_backup reconcile_unfinished admit add backup_qualified_name
    mark_started ensure_snapshot is_ready ensure_snapshot_pvc Option.bind create_snapshot_pvc
    or_create
panics = refl

cluster-KeepsStart : KeepsStart cluster
cluster-KeepsStart x w y e = cc

panic-UnsizedSeen_example :
    UnsizedSeen cluster
      (λ w. w.log)
      (key "first")
      (reconcile cluster plain_lo config (key "first") started).1
panic-UnsizedSeen_example =
    panic-UnsizedSeen cluster (λ w. w.log) cluster-IsRecorded cluster-KeepsStart plain_lo config
      (key "first") started panics
