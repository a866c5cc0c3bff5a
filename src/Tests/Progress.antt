-- ===== src/Tests/Progress.antt =====
-- The theorems on the progress of a backup, on an API that works.
use backsnap.Base.{◌≡◌, refl, subst, String, none, some, [], ◌∷◌, List, if◌then◌else◌, str_eq, ◌&&◌}
use backsnap.Base.Int.{pos}
use backsnap.Api.{PvcBackup}
use backsnap.Client.Server.{Objects, put}
use backsnap.Backup.State.{State, backup_qualified_name}
use backsnap.Backup.Reconcile.{reconcile}
use backsnap.Backup.Steps.{is_ready}
use backsnap.Backup.Progress.Phase.{Stage, asked, snapshotting, ready as ready_phase}
use backsnap.Backup.Progress.Refines.{reconcile-Stage}
use backsnap.Base.{add}
use backsnap.Go.Time.{sub}
use backsnap.Exec.{done}
use backsnap.Settings.{ignores, requeue_after}
use backsnap.Backup.Finished.{succeeded}
use backsnap.Backup.Panic.Quiet.{Sized}
use backsnap.Backup.Progress.Phase.{serve}
use backsnap.Backup.Progress.Served.{job-Moves}
use backsnap.Backup.Progress.Fair.{backup_Finishes}
use backsnap.Backup.Progress.Turns.{Moves, Finishes, reconciles, serves, reconciled, served, rests}
use backsnap.Backup.Progress.Cleanup.{cleaned, reconcile-cleaned}
use mathlib.Core.Option.{some-injective}
use backsnap.Base.Int.{◌-ℤ◌, ◌+ℤ◌}
use backsnap.Exec.{◌>>=◌}
use backsnap.Backup.State.{call, occupy}
use backsnap.Backup.Reconcile.{
  find_when_unset, reconcile_backup, fetch_backup, reconcile_unfinished,
}
use backsnap.Backup.Steps.{admit, mark_started, ensure_snapshot, ensure_snapshot_pvc, ensure_job}
use backsnap.Backup.Objects.{new_snapshot_pvc, new_backup_job}
use mathlib.Core.Option
use backsnap.Tests.Helpers.{plain_lo}
use backsnap.Tests.Samples.{key, unset, finished_at, backup, pvc, ready, completed, config}
use backsnap.Tests.Store.{store, store-IsServer}

abbrev objects : Objects
objects = record {
  backups = λ k.
      if str_eq k.name "first" && str_eq k.namespace "shop"
      then some (backup "first" 1 unset)
      else none;
  restores = λ k. none;
  namespaces = λ n. none;
  pvcs =
      λ k. if str_eq k.name "data" && str_eq k.namespace "shop" then some (pvc "data" []) else none;
  snapshots = λ k. none;
  jobs = λ k. none;
}

abbrev state : Objects → List String → State store
state o running = record { world = o; current_running_backups = some running }

first-Stage : Stage store (λ w. w) (key "first") (pvc "data" []) asked [] (state objects [])
first-Stage = record {
  backup = backup "first" 1 unset;
  key = refl;
  stored = refl;
  source = refl;
  phase = refl;
  sized = λ v h. cc;
  apart = refl;
  running = refl;
}

reconcile-Stage_example :
    Stage store
      (λ w. w)
      (key "first")
      (pvc "data" [])
      snapshotting
      ("shop/first" ∷ [])
      ((reconcile store plain_lo config (key "first") (state objects [])).1)
unfolding ignores add backup_qualified_name
reconcile-Stage_example =
    reconcile-Stage store (λ w. w) store-IsServer config plain_lo (key "first") (pvc "data" [])
      asked [] (state objects []) first-Stage refl refl refl

-- The snapshot of `first` is ready.
abbrev with_snapshot : Objects
with_snapshot = record objects {
  snapshots = put (key "first") (some (ready "first")) objects.snapshots;
}

ready-Sized : Sized (ready "first")
unfolding Option.bind
ready-Sized r e = cc

ready-Stage :
    Stage store (λ w. w) (key "first") (pvc "data" []) ready_phase [] (state with_snapshot [])
unfolding put is_ready
ready-Stage = record {
  backup = backup "first" 1 unset;
  key = refl;
  stored = refl;
  source = refl;
  phase = refl;
  sized = λ v h. subst Sized (some-injective (ready "first") v h) ready-Sized;
  apart = refl;
  running = refl;
}

-- `first` after its next reconcile, once its Job has completed.
abbrev uploads : State store
uploads = (reconcile store plain_lo config (key "first") (state with_snapshot [])).1

abbrev with_job : Objects
with_job = record uploads.world {
  jobs = put (key "first") (some (completed "first")) uploads.world.jobs;
}

abbrev uploads' : State store
uploads' = record uploads { world = with_job }

job_done : Moves store (λ w. w) (key "first") (pvc "data" []) serve uploads uploads'
unfolding reconcile put is_ready ◌>>=◌ find_when_unset ignores reconcile_backup fetch_backup call
    reconcile_unfinished admit occupy mark_started ensure_snapshot ensure_snapshot_pvc Option.bind
    new_snapshot_pvc ensure_job new_backup_job
job_done =
    job-Moves store (λ w. w) (key "first") (pvc "data" []) uploads with_job (ready "first") _
      (completed "first") refl refl refl refl refl

backup_Finishes_example :
    Finishes store
      (λ w. w)
      plain_lo
      config
      (key "first")
      (pvc "data" [])
      (state with_snapshot [])
      (reconciles ∷ serves ∷ reconciles ∷ [])
      ((reconcile store plain_lo config (key "first") uploads').1)
unfolding ignores add backup_qualified_name
backup_Finishes_example =
    backup_Finishes store (λ w. w) plain_lo config (key "first") (pvc "data" []) store-IsServer refl
      ready_phase [] ready-Stage refl refl (served job_done (reconciled rests)) refl

abbrev ended_backup : PvcBackup
ended_backup = backup "first" 1 (finished_at 17000000000000)

abbrev with_ended : Objects
with_ended = record with_snapshot {
  backups = put (key "first") (some ended_backup) objects.backups;
}

reconcile-cleaned_example :
    let s' = (reconcile store plain_lo config (key "first") (state with_ended [])).1 in
    ((reconcile store plain_lo config (key "first") (state with_ended [])).0
      ≡ done (requeue_after (pos 2600000000000)))
    × (s'.world ≡ cleaned store (λ w. w) store-IsServer ended_backup with_ended)
    × (s'.current_running_backups ≡ some [])
unfolding ignores put succeeded sub ◌-ℤ◌ ◌+ℤ◌
reconcile-cleaned_example =
    reconcile-cleaned store (λ w. w) store-IsServer plain_lo config ended_backup
      (pos 17000000000000) [] (state with_ended []) refl refl refl refl refl refl refl
