-- ===== src/Tests/Restores.antt =====
-- The theorems on the restore reconciler and on the environment of its containers.
use backsnap.Base.{◌≡◌, refl, [], ◌∷◌, List, IsNodup}
use backsnap.Base.Dict.{lookup}
use backsnap.Exec.Trace.{Extends}
use backsnap.Kube.{EnvVar}
use backsnap.Settings.Env.{
  restic_env, find_env, names_of, default_restic_env, find_env-restic_env, restic_env-IsNodup,
}
use backsnap.Restore.Reconcile.{reconcile}
use backsnap.Restore.Rules.{Permitted}
use backsnap.Restore.Safety.{restore-Permitted}
use backsnap.Restore.Panic.{StoresStart, restore-NoPanic}
use backsnap.Exec.Ends.{NoPanic}
use backsnap.Tests.Helpers.{plain_lo, plain_lo-IsLawful}
use backsnap.Tests.Cluster.{World, cluster, cluster-IsRecorded}
use backsnap.Tests.Samples.{key, restore, pvc, world, settings, restore_config}
use backsnap.Settings.{currently_restoring_annotation}
use mathlib.Core.Option

-- The PVC to restore to is there, and marked.
abbrev restoring : World
restoring = record world {
  restores = restore ∷ [];
  pvcs = pvc "data" ((currently_restoring_annotation, "back") ∷ []) ∷ [];
}

restore-Permitted_example :
    Extends
      (Permitted cluster.is_not_found (key "back"))
      []
      ((reconcile cluster plain_lo restore_config (key "back") restoring).1.log)
restore-Permitted_example =
    restore-Permitted cluster (λ w. w.log) cluster-IsRecorded plain_lo restore_config (key "back")
      restoring

abbrev password : List EnvVar
password =
    record { name = "RESTIC_PASSWORD"; value = "secret" }
    ∷ record { name = "RESTIC_REPOSITORY"; value = "s3" }
    ∷ []

find_env-restic_env_example :
    find_env "RESTIC_PROGRESS_FPS" (restic_env plain_lo settings.restic_env password)
    ≡ Option.or_else (find_env "RESTIC_PROGRESS_FPS" password) (
        Option.or_else
          (lookup "RESTIC_PROGRESS_FPS" settings.restic_env)
          (lookup "RESTIC_PROGRESS_FPS" default_restic_env))
find_env-restic_env_example =
    find_env-restic_env plain_lo plain_lo-IsLawful settings.restic_env password
      "RESTIC_PROGRESS_FPS"

restic_env-IsNodup_example : IsNodup (names_of (restic_env plain_lo settings.restic_env password))
restic_env-IsNodup_example =
    restic_env-IsNodup plain_lo plain_lo-IsLawful settings.restic_env password (refl, (refl, tt))

cluster-StoresStart : StoresStart cluster
cluster-StoresStart x w y e = cc

restore-NoPanic_example :
    NoPanic (reconcile cluster plain_lo restore_config (key "back") restoring).0
restore-NoPanic_example =
    restore-NoPanic cluster cluster-StoresStart plain_lo restore_config (key "back") restoring
