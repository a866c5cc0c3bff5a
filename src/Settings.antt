-- ===== src/Settings.antt =====
-- internal/controller/util.go: the settings of the operator, and what the reconcilers share.
pub mod Env
use backsnap.Base.{ℕ, String, ◌<>◌, Bool, false, not, ◌&&◌, ◌||◌, Option, none, some, List, [], ◌∷◌}
use backsnap.Base.{str_eq, if◌then◌else◌}
use backsnap.Base.Int.{max_ℤ}
use backsnap.Base.Dict.{Dict}
use backsnap.Go.Time.{Duration, second}
use backsnap.Go.Lo.{Lo}
use backsnap.Kube.{ResourceRequirements, Result}

abbrev pub backup_schedule_annotation : String
backup_schedule_annotation = "backsnap.skyb.it/schedule"

abbrev pub currently_restoring_annotation : String
currently_restoring_annotation = "backsnap.skyb.it/restoring"

abbrev pub data_volume : String
data_volume = "data"

-- `requeueAfter`
unfoldable pub requeue_after : Duration → Result
requeue_after d = record { requeue_after = max_ℤ d second }

pub record BackupSettings : Type 0 where
  pub snapshot_class : String
  pub storage_class : String
  pub backup_storage_class : String
  pub restore_storage_class : String
  pub image_pull_secret : String
  pub image : String
  pub s3_host : String
  pub s3_bucket : String
  pub s3_access_key_id : String
  pub s3_secret_access_key : String
  pub restic_password : String
  pub restic_old_password : String
  pub restic_env : Dict String
  pub restic_resources : ResourceRequirements

-- `firstStorageClassName`
unfoldable pub first_storage_class_name : List String → Option String
first_storage_class_name [] = none
first_storage_class_name (name ∷ names) =
    if str_eq name "" then first_storage_class_name names else some name

-- `backupStorageClassName`
unfoldable pub backup_storage_class_name : BackupSettings → String → Option String
unfolding first_storage_class_name
backup_storage_class_name s override =
    first_storage_class_name (override ∷ s.backup_storage_class ∷ s.storage_class ∷ [])

-- `restoreStorageClassName`
unfoldable pub restore_storage_class_name : BackupSettings → String → Option String
unfolding first_storage_class_name
restore_storage_class_name s override =
    first_storage_class_name (override ∷ s.restore_storage_class ∷ s.storage_class ∷ [])

-- The two tests at the head of each handler: the namespace is excluded, or it is not included.
unfoldable pub ignores : Lo → List String → List String → String → Bool
ignores lo namespaces exclude_namespaces namespace =
    lo.contains exclude_namespaces namespace
    || (not (lo.contains namespaces "") && not (lo.contains namespaces namespace))
