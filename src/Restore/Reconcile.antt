-- ===== src/Restore/Reconcile.antt =====
-- `Reconcile` of `PVCRestoreReconciler`, from its steps.
use backsnap.Base.{String, not, str_eq, if◌then◌else◌}
use backsnap.Go.Time.{is_zero}
use backsnap.Go.Lo.{Lo}
use backsnap.Kube.{NamespacedName, Result}
use backsnap.Api.{PvcRestore}
use backsnap.Client.{Client}
use backsnap.Client.Actions.{Action, call, or_gone}
use backsnap.Exec.{Exit, pure, exit, done, failed, errorf, exit_of}
use backsnap.Exec.{empty_result, when, ◌>>=◌, ◌>>◌}
use backsnap.Settings.{ignores}
use backsnap.Restore.Objects.{target_of}
use backsnap.Restore.Steps.{RestoreConfig, is_marked, end_restore, start_if_unset, ensure_target}
use backsnap.Restore.Steps.{ensure_job, unmark}

module _ (C : Client) (lo : Lo) (cfg : RestoreConfig) where
  -- From the PVC on, for a PVCRestore that has started.
  unfoldable pub restore_into : NamespacedName → String → PvcRestore → Action C Result
  restore_into req target r = do
    pvc ← ensure_target C cfg.backup_settings req target r
    if not (is_marked pvc.meta.annotations r.meta.uid) then end_restore C "Failed" r else do
      (job, r') ← ensure_job C lo cfg.backup_settings req r pvc
      if not (is_marked job.meta.annotations r'.meta.uid)
          then end_restore C "Failed" r'
          else if is_zero job.completion_time
          then pure empty_result
          else unmark C r' pvc

  unfoldable pub reconcile_restore : NamespacedName → PvcRestore → Action C Result
  unfolding target_of restore_into
  reconcile_restore req r =
      let target = target_of r in
      if not (is_zero r.status.finished_at)
      then pure empty_result
      else if str_eq target ""
      then exit (failed (errorf "failed to start backup without source PVC"))
      else do started ← start_if_unset C r r.status.started_at; restore_into req target started

  unfoldable pub reconcile : NamespacedName → C.World → Exit C.Failure × C.World
  reconcile req w =
      let (result, w') =
        (do
          when (ignores lo cfg.namespaces cfg.exclude_namespaces req.namespace)
              (exit (done empty_result))
          reply ← call C (C.get_restore req)
          r ← or_gone C reply
          reconcile_restore req r)
          w in
      (exit_of result, w')
