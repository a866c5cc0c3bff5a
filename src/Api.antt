-- ===== src/Api.antt =====
-- api/v1alpha1: the custom resources PVCBackup and PVCRestore.
use backsnap.Base.{String, Option, List}
use backsnap.Base.Dict.{Dict}
use backsnap.Go.Time.{Time, Duration}
use backsnap.Kube.{ObjectMeta, Toleration, Quantity}

pub record PvcBackupSpec : Type 0 where
  pub pvc_name : String
  pub ttl : Duration
  pub storage_class_name : String
  pub node_selector : Dict String
  pub tolerations : List Toleration
  pub priority_class_name : String
  pub labels : Dict String
  pub annotations : Dict String

-- `type Result string`, one of "Succeeded" and "Failed".
abbrev pub BackupResult : Type 0
BackupResult = String

pub record PvcBackupStatus : Type 0 where
  pub started_at : Option Time
  pub finished_at : Option Time
  pub duration : Option Duration
  pub result : Option BackupResult

pub record PvcBackup : Type 0 where
  pub meta : ObjectMeta
  pub spec : PvcBackupSpec
  pub status : PvcBackupStatus

pub record PvcRestoreSpec : Type 0 where
  pub source_pvc : String
  pub source_namespace : String
  pub source_snapshot : String
  pub target_pvc : String
  pub target_pvc_size : Quantity
  pub storage_class_name : String
  pub node_selector : Dict String
  pub tolerations : List Toleration
  pub priority_class_name : String
  pub labels : Dict String
  pub annotations : Dict String

pub record PvcRestoreStatus : Type 0 where
  pub started_at : Option Time
  pub finished_at : Option Time
  pub duration : Option Duration
  pub result : Option BackupResult

pub record PvcRestore : Type 0 where
  pub meta : ObjectMeta
  pub spec : PvcRestoreSpec
  pub status : PvcRestoreStatus
