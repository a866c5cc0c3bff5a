-- ===== src/Backup/Rules.antt =====
-- Which requests the reconciler may send, by what it has seen before.
use backsnap.Base.{String, ◌≡◌, true, false, Option, some, List}
use backsnap.Base.Int.{◌<ℤ◌}
use backsnap.Base.Dict.{lookup}
use backsnap.Go.Time.{Time, is_zero}
use backsnap.Kube.{NamespacedName, Pvc, VolumeSnapshot, Job}
use backsnap.Api.{PvcBackup}
use backsnap.Client.{ok}
use backsnap.Client.History.{
  Event, got_backup, got_pvc, got_snapshot, got_job, listed_backups, created_backup, created_pvc,
  created_snapshot, created_job, updated_pvc, updated_backup_status, updated_restore_status,
  deleted_backup, deleted_snapshot, deleted_job, deleted_pvc,
}
use backsnap.Exec.Trace.{Occurs}
use backsnap.Settings.{backup_schedule_annotation}
use backsnap.Backup.State.{key_of}
use backsnap.Backup.Steps.{is_ready}
use mathlib.Core.List.{Memᴰ}
use mathlib.Core.Logic.{◌⊎◌}

module _ {F : Type 0} (req : NamespacedName) where
  -- The event shows the snapshot, or the job, of the request.
  abbrev pub SnapshotIn : VolumeSnapshot → Event F → Type 0
  SnapshotIn s e =
      (e ≡ got_snapshot req (ok s)) ⊎ ((x : VolumeSnapshot) × (e ≡ created_snapshot x (ok s)))

  abbrev pub JobIn : Job → Event F → Type 0
  JobIn j e = (e ≡ got_job req (ok j)) ⊎ ((x : Job) × (e ≡ created_job x (ok j)))

module _ {F : Type 0} (req : NamespacedName) (es : List (Event F)) where
  -- The backup of the request was read.
  abbrev pub Fetched : PvcBackup → Type 0
  Fetched b = Occurs (λ e. e ≡ got_backup req (ok b)) es

  -- A backup of name `k` was read that has finished successfully.
  pub record FinishedSeen (k : NamespacedName) : Type 0 where
    pub backup : PvcBackup
    pub fetched : Fetched backup
    pub key : key_of backup.meta ≡ k
    pub finished : is_zero backup.status.finished_at ≡ false
    pub succeeded : backup.status.result ≡ some "Succeeded"

  -- The backups of the namespace of `b` were listed, and one of the same PVC finished after `b`.
  pub record NewerSibling (b : PvcBackup) : Type 0 where
    pub siblings : List PvcBackup
    pub listed : Occurs (λ e. e ≡ listed_backups (some b.meta.namespace) (ok siblings)) es
    pub sibling : PvcBackup
    pub mem : Memᴰ sibling siblings
    pub same_pvc : sibling.spec.pvc_name ≡ b.spec.pvc_name
    pub at : Time
    pub later : Time
    pub finished_at : b.status.finished_at ≡ some at
    pub sibling_finished_at : sibling.status.finished_at ≡ some later
    pub newer : at <ℤ later

  -- The PVC of the name was read.
  abbrev pub PvcSeen : Option String → Type 0
  PvcSeen name =
      (k : NamespacedName) × (pvc : Pvc) × Occurs (λ e. e ≡ got_pvc k (ok pvc)) es
      × (name ≡ some pvc.meta.name)

  -- The snapshot of the request was read, or created, and was ready to use.
  abbrev pub ReadySeen : Type 0
  ReadySeen = (s : VolumeSnapshot) × Occurs (SnapshotIn req s) es × (is_ready s.status ≡ true)

  -- The job of the request had completed.
  abbrev pub CompletedSeen : Type 0
  CompletedSeen = (j : Job) × Occurs (JobIn req j) es × (is_zero j.completion_time ≡ false)

-- Reads are always allowed. Requests that are no part of a backup are never sent.
abbrev pub Permitted : {F : Type 0} → NamespacedName → Event F → List (Event F) → Type 0
Permitted req (deleted_backup k _) es =
    (seen : FinishedSeen req es k) × NewerSibling req es seen.backup
Permitted req (deleted_snapshot k _) es = FinishedSeen req es k
Permitted req (deleted_job k _) es = FinishedSeen req es k
Permitted req (deleted_pvc k _) es = FinishedSeen req es k
Permitted req (created_snapshot x _) es = PvcSeen req es x.persistent_volume_claim_name
Permitted req (created_pvc x _) es =
    ReadySeen req es × (lookup backup_schedule_annotation x.meta.annotations ≡ some "")
Permitted req (created_job _ _) es = ReadySeen req es
Permitted req (updated_backup_status b _) es =
    (is_zero b.status.finished_at ≡ true) ⊎ CompletedSeen req es
Permitted req (created_backup _ _) es = ⊥
Permitted req (updated_pvc _ _) es = ⊥
Permitted req (updated_restore_status _ _) es = ⊥
Permitted req _ es = Unit
