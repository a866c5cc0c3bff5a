-- ===== src/Tests/Handover.antt =====
-- The theorem on a backup that the creator makes, on an API that works.
use backsnap.Base.{refl, none, some, [], if◌then◌else◌, str_eq, ◌&&◌}
use backsnap.Base.Int.{pos}
use backsnap.Client.Server.{Objects}
use backsnap.Automatic.Reconcile.{create_backup}
use backsnap.Automatic.Handover.{creator-Stage, k}
use backsnap.Backup.Progress.Phase.{Stage, asked}
use backsnap.Kube.{NamespacedName, VolumeSnapshot, Job}
use backsnap.Client.Server.{put}
use backsnap.Settings.{ignores}
use backsnap.Backup.State.{State}
use backsnap.Backup.Reconcile.{reconcile}
use backsnap.Backup.Panic.Quiet.{Sized}
use backsnap.Backup.Progress.Phase.{serve}
use backsnap.Backup.Progress.Served.{snapshot-Moves, job-Moves}
use backsnap.Backup.Progress.Turns.{Moves, Finishes, reconciles, serves, reconciled, served, rests}
use backsnap.Automatic.Handover.{creator_Finishes}
use mathlib.Core.Option
use backsnap.Base.Int.{◌-ℤ◌}
use backsnap.Client.Actions
use backsnap.Exec.{◌>>=◌}
use backsnap.Base.{add, ◌∷◌}
use backsnap.Backup.State.{call, occupy, backup_qualified_name}
use backsnap.Backup.Reconcile.{
  find_when_unset, reconcile_backup, fetch_backup, reconcile_unfinished,
}
use backsnap.Backup.Steps.{
  admit, mark_started, ensure_snapshot, ensure_snapshot_pvc, ensure_job, is_ready,
}
use backsnap.Backup.Objects.{new_snapshot, new_snapshot_pvc, new_backup_job}
use backsnap.Tests.Samples.{config, ready, completed}
use backsnap.Tests.Helpers.{plain_lo}
use backsnap.Tests.Samples.{pvc, two_hours, percent, automatic_config}
use backsnap.Tests.Store.{store, store-IsServer}

-- A PVC, and nothing else.
abbrev fresh : Objects
fresh = record {
  backups = λ k. none;
  restores = λ k. none;
  namespaces = λ n. none;
  pvcs =
      λ k. if str_eq k.name "data" && str_eq k.namespace "shop" then some (pvc "data" []) else none;
  snapshots = λ k. none;
  jobs = λ k. none;
}

creator-Stage_example :
    Stage store
      (λ w. w)
      (k store
        (λ w. w)
        store-IsServer
        plain_lo
        two_hours
        percent
        automatic_config
        (pvc "data" [])
        (pos 18000000000000))
      (pvc "data" [])
      asked
      []
      (record {
        world =
            (create_backup store plain_lo two_hours percent automatic_config tt
              (pvc "data" [])
              (pos 18000000000000)
              fresh).1;
        current_running_backups = some [];
      })
creator-Stage_example =
    creator-Stage store (λ w. w) store-IsServer plain_lo two_hours percent automatic_config
      (pvc "data" []) (pos 18000000000000) fresh tt [] refl refl refl

abbrev new_key : NamespacedName
new_key =
    k store (λ w. w) store-IsServer plain_lo two_hours percent automatic_config (pvc "data" [])
      (pos 18000000000000)

-- The backup is made; its snapshot is made, and becomes ready; its Job is made, and completes.
abbrev created : State store
created = record {
  world =
      (create_backup store plain_lo two_hours percent automatic_config tt (pvc "data" [])
        (pos 18000000000000) fresh).1;
  current_running_backups = some [];
}

abbrev with_snapshot : State store
with_snapshot = (reconcile store plain_lo config new_key created).1

abbrev unready : VolumeSnapshot
unready = Option.get_or (with_snapshot.world.snapshots new_key) (ready "first")

abbrev ready_world : Objects
ready_world = record with_snapshot.world {
  snapshots = put new_key (some (ready "first")) with_snapshot.world.snapshots;
}

abbrev ready_state : State store
ready_state = record with_snapshot { world = ready_world }

abbrev with_job : State store
with_job = (reconcile store plain_lo config new_key ready_state).1

abbrev running : Job
running = Option.get_or (with_job.world.jobs new_key) (completed "first")

abbrev done_world : Objects
done_world = record with_job.world {
  jobs = put new_key (some (completed "first")) with_job.world.jobs;
}

abbrev done_state : State store
done_state = record with_job { world = done_world }

first-Sized : Sized (ready "first")
unfolding Option.bind
first-Sized r e = cc

snapshot_made : Moves store (λ w. w) new_key (pvc "data" []) serve with_snapshot ready_state
unfolding reconcile put ◌>>=◌ find_when_unset ignores reconcile_backup fetch_backup call
    create_backup Actions.call ◌-ℤ◌ reconcile_unfinished admit occupy mark_started ensure_snapshot
    is_ready new_snapshot ensure_snapshot_pvc Option.bind new_snapshot_pvc ensure_job new_backup_job
    add backup_qualified_name
snapshot_made =
    snapshot-Moves store (λ w. w) new_key (pvc "data" []) with_snapshot ready_world unready
      (ready "first") refl refl refl first-Sized refl

job_done : Moves store (λ w. w) new_key (pvc "data" []) serve with_job done_state
unfolding reconcile put ◌>>=◌ find_when_unset ignores reconcile_backup fetch_backup call
    create_backup Actions.call ◌-ℤ◌ reconcile_unfinished admit occupy mark_started ensure_snapshot
    is_ready new_snapshot ensure_snapshot_pvc Option.bind new_snapshot_pvc ensure_job new_backup_job
    add backup_qualified_name
job_done =
    job-Moves store (λ w. w) new_key (pvc "data" []) with_job done_world (ready "first") running
      (completed "first") refl refl refl refl refl

creator_Finishes_example :
    Finishes store
      (λ w. w)
      plain_lo
      config
      new_key
      (pvc "data" [])
      created
      (reconciles ∷ serves ∷ reconciles ∷ serves ∷ reconciles ∷ [])
      ((reconcile store plain_lo config new_key done_state).1)
unfolding ignores add backup_qualified_name
creator_Finishes_example =
    creator_Finishes store (λ w. w) store-IsServer plain_lo two_hours percent automatic_config
      (pvc "data" []) (pos 18000000000000) config fresh tt [] refl refl refl refl refl
      (served snapshot_made (reconciled (served job_done (reconciled rests)))) refl
