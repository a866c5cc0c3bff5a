-- ===== src/Restore/Steps.antt =====
-- The steps of `Reconcile` of `PVCRestoreReconciler`, in their order. The reconciler keeps nothing
-- between two reconciles, so its state is the world.
use backsnap.Base.{String, Bool, false, Option, none, some, List, str_eq}
use backsnap.Base.Dict.{Dict, lookup, erase}
use backsnap.Go.Time.{Time}
use backsnap.Go.Lo.{Lo}
use backsnap.Kube.{NamespacedName, Result, Pvc, Job}
use backsnap.Api.{PvcRestore}
use backsnap.Client.{Client, Reply, ok, err}
use backsnap.Client.Actions.{Action, call, or_create, or_panic}
use backsnap.Exec.{pure, or_fail, empty_result, ◌>>=◌, ◌>>◌}
use backsnap.Settings.{BackupSettings, currently_restoring_annotation}
use backsnap.Restore.Objects.{new_target_pvc, new_restore_job, with_defaults, set_restore_finished}

-- The fields of `PVCRestoreReconciler` that are set once.
pub record RestoreConfig : Type 0 where
  pub namespaces : List String
  pub exclude_namespaces : List String
  pub backup_settings : BackupSettings

-- `uid, ok := annotations[...]` with `ok && uid == string(restore.UID)`
abbrev pub is_uid : Option String → String → Bool
is_uid none uid = false
is_uid (some u) uid = str_eq u uid

unfoldable pub is_marked : Dict String → String → Bool
is_marked annotations uid = is_uid (lookup currently_restoring_annotation annotations) uid

-- The Job that exists already leaves the PVCRestore as it is.
abbrev pub with_restore : {F : Type 0} → PvcRestore → Reply F Job → Reply F (Job × PvcRestore)
with_restore r (ok j) = ok (j, r)
with_restore r (err e) = err e

module _ (C : Client) where
  -- `setRestoreFinished`, the update of the status, and `return ctrl.Result{}, nil`.
  unfoldable pub end_restore : String → PvcRestore → Action C Result
  unfolding set_restore_finished or_panic
  end_restore result r = do
    now ← call C C.now
    r' ← or_panic C (set_restore_finished now result r)
    updated ← call C (C.update_restore_status r')
    or_fail updated
    pure empty_result

  -- `if restore.Status.StartedAt == nil { ... }`, from the start time.
  unfoldable pub start_if_unset : PvcRestore → Option Time → Action C PvcRestore
  start_if_unset r (some _) = pure r
  start_if_unset r none = do
    now ← call C C.now
    updated ←
        call C (
          C.update_restore_status (record r { status = record r.status { started_at = some now } }))
    or_fail updated

  -- The PVC to restore to, which is created if it does not exist.
  unfoldable pub ensure_target :
      BackupSettings → NamespacedName → String → PvcRestore → Action C Pvc
  unfolding or_create
  ensure_target s req target r = do
    reply ← call C (C.get_pvc (record req { name = target }))
    or_create C reply do
      created ← call C (C.create_pvc (new_target_pvc s req.namespace target r))
      or_fail created

  -- The restore Job, and the PVCRestore, which has its defaults if the Job had to be created.
  unfoldable pub ensure_job :
      Lo → BackupSettings → NamespacedName → PvcRestore → Pvc → Action C (Job × PvcRestore)
  ensure_job lo s req r pvc = do
    reply ← call C (C.get_job req)
    or_create C (with_restore r reply) do
      let r' = with_defaults r
      let new = new_restore_job lo s r' pvc.meta.name
      owners ← or_fail (C.set_controller_reference "PVCRestore" r'.meta new.meta)
      created ←
          call C
            (C.create_job (record new { meta = record new.meta { owner_references = owners } }))
      job ← or_fail created
      pure (job, r')

  -- The end of a restore whose PVC could not be updated, or could.
  unfoldable pub after_unmark : PvcRestore → Reply C.Failure Pvc → Action C Result
  unfolding end_restore
  after_unmark r (err _) = end_restore "Failed" r
  after_unmark r (ok _) = end_restore "Succeeded" r

  -- Remove the restore annotation from the PVC, and finish.
  unfoldable pub unmark : PvcRestore → Pvc → Action C Result
  unfolding after_unmark erase
  unmark r pvc = do
    reply ← call C (
        C.update_pvc (record pvc {
          meta = record pvc.meta {
            annotations = erase currently_restoring_annotation pvc.meta.annotations;
          };
        }))
    after_unmark r reply
