-- ===== src/Backup/Reconcile.antt =====
-- `Reconcile` of `PVCBackupReconciler`, from its steps.
use backsnap.Base.{List, String, not, Option, none, some, if◌then◌else◌}
use backsnap.Base.Int.{pos}
use backsnap.Go.Time.{is_zero}
use backsnap.Go.Lo.{Lo}
use backsnap.Kube.{NamespacedName, Result}
use backsnap.Api.{PvcBackup}
use backsnap.Client.{Client, Reply, ok, err}
use backsnap.Exec.{Exit, pure, exit, done, failed, api, or_fail, empty_result}
use backsnap.Exec.{exit_of, when, ◌>>=◌, ◌>>◌}
use backsnap.Settings.{ignores}
use backsnap.Backup.State.{Config, State, Action, call, forget, key_of, backup_qualified_name}
use backsnap.Backup.Running.{find_current_running_backups}
use backsnap.Backup.Finished.{reconcile_finished}
use backsnap.Backup.Steps.{is_ready, admit, mark_started, ensure_snapshot, ensure_snapshot_pvc}
use backsnap.Backup.Steps.{ensure_job, finish}
use mathlib.Core.Option

module _ (C : Client) (lo : Lo) (cfg : Config) where
  -- `if r.CurrentRunningBackups == nil { ... }`
  unfoldable pub find_if_none : Option (List String) → Action C Unit
  find_if_none none = find_current_running_backups C lo cfg
  find_if_none (some _) = pure tt

  unfoldable pub find_when_unset : Action C Unit
  unfolding find_if_none
  find_when_unset s = find_if_none s.current_running_backups s

  -- The backup of the request. One that is gone is no longer running.
  unfoldable pub or_forget : NamespacedName → Reply C.Failure PvcBackup → Action C PvcBackup
  or_forget req (ok b) = pure b
  or_forget req (err e) =
      if C.is_not_found e
      then (do forget C (backup_qualified_name req); exit (done empty_result))
      else exit (failed (api e))

  unfoldable pub fetch_backup : NamespacedName → Action C PvcBackup
  unfolding or_forget
  fetch_backup req = do reply ← call C (C.get_backup req); or_forget req reply

  -- Start the backup, or carry it on.
  unfoldable pub reconcile_unfinished : NamespacedName → PvcBackup → Action C Result
  reconcile_unfinished req backup = do
    let pvc_key = record req { name = backup.spec.pvc_name }
    reply ← call C (C.get_pvc pvc_key)
    pvc ← or_fail reply
    let qualified_name = backup_qualified_name (key_of backup.meta)
    admit C cfg qualified_name
    b ← mark_started C cfg backup
    snapshot ← ensure_snapshot C cfg req b pvc
    when (not (is_ready snapshot.status)) (exit (done empty_result))
    snapshot_pvc ← ensure_snapshot_pvc C cfg req b snapshot
    job ← ensure_job C cfg lo req b pvc snapshot_pvc
    if is_zero job.completion_time then pure empty_result else finish C cfg req qualified_name b

  unfoldable pub reconcile_backup : NamespacedName → Action C Result
  reconcile_backup req = do
    backup ← fetch_backup req
    if is_zero backup.status.finished_at
        then reconcile_unfinished req backup
        else reconcile_finished C backup (Option.get_or backup.status.finished_at (pos 0))

  unfoldable pub reconcile : NamespacedName → State C → Exit C.Failure × State C
  reconcile req s =
      let (r, s') =
        (do
          find_when_unset
          when (ignores lo cfg.namespaces cfg.exclude_namespaces req.namespace)
              (exit (done empty_result))
          reconcile_backup req)
          s in
      (exit_of r, s')
