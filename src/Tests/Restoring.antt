-- ===== src/Tests/Restoring.antt =====
-- The theorems on the progress of a restore, on an API that works.
use backsnap.Kube.{Job}
use backsnap.Client.Actions.{call, or_gone}
use backsnap.Restore.Steps.{start_if_unset, ensure_target, is_marked, ensure_job}
use backsnap.Restore.Objects.{new_target_pvc, new_restore_job, with_defaults}
use backsnap.Base.Dict.{lookup}
use backsnap.Base.{refl, none, some, if◌then◌else◌, str_eq, ◌&&◌}
use backsnap.Base.Int.{pos}
use backsnap.Client.Server.{Objects, put}
use backsnap.Settings.{ignores}
use backsnap.Restore.Progress.Phase as RestorePhase
use backsnap.Restore.Reconcile as Restore
use backsnap.Restore.Progress.Refines.{restore-Stage}
use mathlib.Core.Option.{some-injective}
use backsnap.Exec.{◌>>=◌}
use backsnap.Restore.Objects.{target_of}
use mathlib.Core.Option
use backsnap.Tests.Helpers.{plain_lo}
use backsnap.Tests.Samples.{key, completed, restore, restore_config}
use backsnap.Tests.Store.{store, store-IsServer}
use backsnap.Restore.Progress.Turns as RestoreTurns
use backsnap.Restore.Progress.Turns.{restore_ends}

abbrev objects : Objects
objects = record {
  backups = λ k. none;
  restores = λ k. none;
  namespaces = λ n. none;
  pvcs = λ k. none;
  snapshots = λ k. none;
  jobs = λ k. none;
}

-- `back` restores `data`, which is not there.
abbrev to_restore : Objects
to_restore = record objects {
  restores = λ k. if str_eq k.name "back" && str_eq k.namespace "shop" then some restore else none;
  pvcs = λ k. none;
}

back-Stage : RestorePhase.Stage (key "back") RestorePhase.asked to_restore
unfolding target_of
back-Stage = record {
  restore = restore;
  key = refl;
  stored = refl;
  target = refl;
  phase = refl;
  named = λ v h. cc;
  freed = tt;
}

restore-Stage_example :
    RestorePhase.Stage
      (key "back")
      RestorePhase.restoring
      ((Restore.reconcile store plain_lo restore_config (key "back") to_restore).1)
unfolding ignores
restore-Stage_example =
    restore-Stage store (λ w. w) store-IsServer restore_config plain_lo (key "back")
      RestorePhase.asked to_restore back-Stage refl refl

-- After its first reconcile, and once its Job has completed.
abbrev restoring : Objects
restoring = (Restore.reconcile store plain_lo restore_config (key "back") to_restore).1

abbrev running : Job
running = Option.get_or (restoring.jobs (key "back")) (completed "back")

abbrev done_job : Job
done_job = record running { completion_time = some (pos 9) }

abbrev restored : Objects
restored = record restoring { jobs = put (key "back") (some done_job) restoring.jobs }

job_completes : RestoreTurns.Moves store (λ w. w) (key "back") RestoreTurns.serve restoring restored
unfolding Restore.reconcile ◌>>=◌ ignores call or_gone Restore.reconcile_restore start_if_unset
    ensure_target is_marked lookup new_target_pvc ensure_job new_restore_job with_defaults put
job_completes =
    RestoreTurns.job-Moves store (λ w. w) (key "back") running done_job restoring restored refl refl
      refl refl

idle : RestoreTurns.Moves store (λ w. w) (key "back") (λ p. p) restored restored
idle = record { at = λ p stage. stage }

restore_ends_example :
    RestorePhase.Stage
      (key "back")
      RestorePhase.succeeded
      ((Restore.reconcile store plain_lo restore_config (key "back") restored).1)
unfolding ignores
restore_ends_example =
    restore_ends store (λ w. w) store-IsServer restore_config plain_lo (key "back") refl
      RestorePhase.asked
      (RestoreTurns.reconciled (
        RestoreTurns.served job_completes
          (RestoreTurns.passed idle (RestoreTurns.reconciled RestoreTurns.rests))))
      back-Stage refl
