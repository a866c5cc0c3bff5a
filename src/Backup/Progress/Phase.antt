-- ===== src/Backup/Progress/Phase.antt =====
-- A backup as an abstract machine: its phases, and what a reconcile and the cluster do to them.
use backsnap.Base.{◌≡◌, String, Bool, Option, none, some, List, add, remove, if◌then◌else◌}
use backsnap.Base.{str_eq, true, false}
use backsnap.Go.Time.{is_zero}
use backsnap.Kube.{key_of, NamespacedName, Pvc, VolumeSnapshot, Job}
use backsnap.Api.{PvcBackup}
use backsnap.Client.{Client}
use backsnap.Client.Server.{Objects}
use backsnap.Backup.State.{State}
use backsnap.Backup.Finished.{succeeded}
use backsnap.Backup.Steps.{is_ready}
use backsnap.Backup.Panic.Quiet.{Sized}

-- It has no snapshot; one that is not ready; one that is; a Job that runs; one that has completed.
pub data Phase : Type 0 where
  asked snapshotting ready uploading uploaded finished failed : Phase

abbrev pub phase_of_job : Option Job → Phase
phase_of_job none = ready
phase_of_job (some j) = if is_zero j.completion_time then uploading else uploaded

abbrev pub phase_of_snapshot : Option VolumeSnapshot → Option Job → Phase
phase_of_snapshot none job = asked
phase_of_snapshot (some v) job = if is_ready v.status then phase_of_job job else snapshotting

abbrev pub phase_of_status : Option String → Phase
phase_of_status result = if succeeded result then finished else failed

-- The phase, as the code looks at the objects.
abbrev pub phase_of : PvcBackup → Option VolumeSnapshot → Option Job → Phase
phase_of b snapshot job =
    if is_zero b.status.finished_at
    then phase_of_snapshot snapshot job
    else phase_of_status b.status.result

-- What one reconcile does.
abbrev pub advance : Phase → Phase
advance asked = snapshotting
advance snapshotting = snapshotting
advance ready = uploading
advance uploading = uploading
advance uploaded = finished
advance finished = finished
advance failed = failed

-- The backup has ended.
abbrev pub is_over : Phase → Bool
is_over finished = true
is_over failed = true
is_over _ = false

-- What the rest of the cluster does in time: it makes the snapshot, and it runs the Job.
abbrev pub serve : Phase → Phase
serve snapshotting = ready
serve uploading = uploaded
serve p = p

-- The places of running backups after a reconcile in the phase: the backup gives its place back at
-- the end.
abbrev pub places : Phase → String → List String → List String
places uploaded name rs = remove name rs
places finished name rs = rs
places failed name rs = rs
places _ name rs = add name rs

module _ (C : Client) (objects : C.World → Objects) where
  -- The backup with key `k`, of PVC `pvc`, is in phase `p`, and the running backups are `rs`.
  pub record Stage (k : NamespacedName) (pvc : Pvc) (p : Phase) (rs : List String) (s : State C)
      : Type 0 where
    pub backup : PvcBackup
    pub key : key_of backup.meta ≡ k
    pub stored : (objects s.world).backups k ≡ some backup
    pub source : (objects s.world).pvcs (record k { name = backup.spec.pvc_name }) ≡ some pvc
    pub phase : phase_of backup ((objects s.world).snapshots k) ((objects s.world).jobs k) ≡ p
    -- A snapshot that is ready to use has a size.
    pub sized : (v : VolumeSnapshot) → (objects s.world).snapshots k ≡ some v → Sized v
    -- The temporary PVC is another than the one that is backed up.
    pub apart : str_eq backup.meta.name backup.spec.pvc_name ≡ false
    pub running : s.current_running_backups ≡ some rs
