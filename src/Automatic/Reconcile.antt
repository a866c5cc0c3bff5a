-- ===== src/Automatic/Reconcile.antt =====
-- `Reconcile` of `AutomaticPVCBackupCreator`. It keeps nothing between two reconciles, so its
-- state is the world.
use backsnap.Base.{String, ◌<>◌, Bool, Option, none, some, [], str_eq, if◌then◌else◌}
use backsnap.Base.Int.{pos}
use backsnap.Base.Dict.{lookup}
use backsnap.Go.Time.{Time, after, sub, unix}
use backsnap.Go.Decimal.{decimal}
use backsnap.Go.Lo.{Lo}
use backsnap.Kube.{NamespacedName, Result, Pvc}
use backsnap.Api.{PvcBackup}
use backsnap.Client.{Client, Reply, ok, err}
use backsnap.Client.Actions.{Action, call, or_gone}
use backsnap.Exec.{Exit, pure, exit, done, failed, errorf, or_fail, empty_result, exit_of, when}
use backsnap.Exec.{◌>>=◌, ◌>>◌}
use backsnap.Settings.{currently_restoring_annotation, requeue_after}
use backsnap.Automatic.Schedule.{Cron, Float, default_ttl, schedule_of, newest_backup, next_backup}
use backsnap.Automatic.Requests.{AutomaticConfig}

-- `fmt.Sprintf("%s-%d", pvc.Name, now.Unix())`
unfoldable pub backup_name : String → Time → String
unfolding decimal unix
backup_name pvc_name now = pvc_name <> ("-" <> decimal (unix now))

-- The backup of the PVC at time `now`.
unfoldable pub new_backup : Pvc → Time → PvcBackup
unfolding backup_name
new_backup pvc now = record {
  meta = record {
    namespace = pvc.meta.namespace;
    name = backup_name pvc.meta.name now;
    uid = "";
    labels = [];
    annotations = [];
    creation_timestamp = pos 0;
    owner_references = [];
  };
  spec = record {
    pvc_name = pvc.meta.name;
    ttl = default_ttl;
    storage_class_name = "";
    node_selector = [];
    tolerations = [];
    priority_class_name = "";
    labels = [];
    annotations = [];
  };
  status = record { started_at = none; finished_at = none; duration = none; result = none };
}

abbrev pub is_some : {A : Type 0} → Option A → Bool
is_some none = Bool.false
is_some (some _) = Bool.true

module _ (C : Client) (lo : Lo) (cron : Cron) (fl : Float) (cfg : AutomaticConfig) where
  -- `requeueAfter(time.Until(t))`
  unfoldable pub wait_until : Time → Action C Result
  wait_until t = do now ← call C C.now; pure (requeue_after (sub t now))

  -- Create the backup at time `now`, and come back for the next one.
  unfoldable pub create_backup : cron.Expression → Pvc → Time → Action C Result
  unfolding wait_until new_backup
  create_backup e pvc now = do
    let new = new_backup pvc now
    owners ← or_fail (C.set_controller_reference "PersistentVolumeClaim" pvc.meta new.meta)
    reply ←
        call C
          (C.create_backup (record new { meta = record new.meta { owner_references = owners } }))
    created ← or_fail reply
    wait_until (cron.next_after e created.meta.creation_timestamp)

  -- From the parsed schedule on.
  unfoldable pub reconcile_schedule : Pvc → cron.Expression → Action C Result
  unfolding wait_until create_backup next_backup newest_backup
  reconcile_schedule pvc e = do
    reply ← call C (C.list_child_backups pvc.meta.namespace pvc.meta.name)
    children ← or_fail reply
    let next = next_backup cron fl e (newest_backup lo pvc children)
    now ← call C C.now
    if after next now then wait_until next else create_backup e pvc now

  -- The parsed schedule, or its error.
  unfoldable pub or_bad_schedule : Reply String cron.Expression → Action C cron.Expression
  or_bad_schedule (ok e) = pure e
  or_bad_schedule (err text) = exit (failed (errorf text))

  unfoldable pub reconcile : NamespacedName → C.World → Exit C.Failure × C.World
  unfolding schedule_of or_bad_schedule
  reconcile req w =
      let (result, w') =
        (do
          found ←
              call C (C.get_namespace (record { namespace = req.namespace; name = req.namespace }))
          namespace ← or_gone C found
          reply ← call C (C.get_pvc req)
          pvc ← or_gone C reply
          when (is_some (lookup currently_restoring_annotation pvc.meta.annotations))
              (exit (done empty_result))
          let schedule = schedule_of cfg.default_schedule pvc namespace
          when (str_eq schedule "") (exit (done empty_result))
          e ← or_bad_schedule (cron.parse schedule)
          reconcile_schedule pvc e)
          w in
      (exit_of result, w')
