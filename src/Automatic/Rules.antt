-- ===== src/Automatic/Rules.antt =====
-- Which requests the creator of backups may send, by what it has seen before.
use backsnap.Base.{◌≡◌, ◌≢◌, false, none, List}
use backsnap.Base.Dict.{lookup}
use backsnap.Go.Time.{Time, after}
use backsnap.Go.Lo.{Lo}
use backsnap.Kube.{NamespacedName, OwnerReference, Namespace, Pvc}
use backsnap.Api.{PvcBackup}
use backsnap.Client.{Client, ok}
use backsnap.Client.History.{
  Event, Events, got_namespace, got_pvc, listed_child_backups, created_backup, created_pvc,
  created_snapshot, created_job, updated_pvc, updated_backup_status, updated_restore_status,
  deleted_backup, deleted_snapshot, deleted_job, deleted_pvc,
}
use backsnap.Exec.Trace.{Occurs}
use backsnap.Settings.{currently_restoring_annotation}
use backsnap.Automatic.Schedule.{Cron, Float, schedule_of, newest_backup, next_backup}
use backsnap.Automatic.Requests.{AutomaticConfig}
use backsnap.Automatic.Reconcile.{new_backup}

module _ (C : Client) (lo : Lo) (cron : Cron) (fl : Float) (cfg : AutomaticConfig)
    (req : NamespacedName) where
  -- The PVC of the request and its namespace were read, the PVC was not being restored, and the
  -- schedule that holds for it is `e`.
  pub record Scheduled (pvc : Pvc) (e : cron.Expression) (es : Events C) : Type 0 where
    pub namespace : Namespace
    pub namespace_seen :
        Occurs
          (λ v.
            v
            ≡ got_namespace
                (record { namespace = req.namespace; name = req.namespace })
                (ok namespace))
          es
    pub pvc_seen : Occurs (λ v. v ≡ got_pvc req (ok pvc)) es
    pub not_restoring : lookup currently_restoring_annotation pvc.meta.annotations ≡ none
    pub not_empty : schedule_of cfg.default_schedule pvc namespace ≢ ""
    pub parsed : cron.parse (schedule_of cfg.default_schedule pvc namespace) ≡ ok e

  -- The child backups of the PVC were listed, and at time `now` the next one was due.
  pub record Due (pvc : Pvc) (e : cron.Expression) (now : Time) (es : Events C) : Type 0 where
    pub children : List PvcBackup
    pub listed :
        Occurs (λ v. v ≡ listed_child_backups pvc.meta.namespace pvc.meta.name (ok children)) es
    pub due : after (next_backup cron fl e (newest_backup lo pvc children)) now ≡ false

  -- `x` is the new backup of a PVC that was due at some time, up to its owner.
  pub record Justified (x : PvcBackup) (es : Events C) : Type 0 where
    pub pvc : Pvc
    pub expression : cron.Expression
    pub now : Time
    pub owners : List OwnerReference
    pub scheduled : Scheduled pvc expression es
    pub due : Due pvc expression now es
    pub is_new : x ≡ (
        let new = new_backup pvc now in
        record new { meta = record new.meta { owner_references = owners } })

  -- Reads are always allowed, and so is a justified new backup. Nothing else is ever sent.
  abbrev pub Permitted : Event C.Failure → Events C → Type 0
  Permitted (created_backup x _) es = Justified x es
  Permitted (created_pvc _ _) es = ⊥
  Permitted (created_snapshot _ _) es = ⊥
  Permitted (created_job _ _) es = ⊥
  Permitted (updated_pvc _ _) es = ⊥
  Permitted (updated_backup_status _ _) es = ⊥
  Permitted (updated_restore_status _ _) es = ⊥
  Permitted (deleted_backup _ _) es = ⊥
  Permitted (deleted_snapshot _ _) es = ⊥
  Permitted (deleted_job _ _) es = ⊥
  Permitted (deleted_pvc _ _) es = ⊥
  Permitted _ es = Unit
