-- ===== src/Backup/Objects.antt =====
-- The objects that `Reconcile` creates for a backup: the VolumeSnapshot, the temporary PVC that is
-- made from it, and the Job that runs restic on that PVC.
use backsnap.Base.{String, ◌<>◌, true, none, some, List, [], ◌∷◌, str_eq}
use backsnap.Base.{if◌then◌else◌}
use backsnap.Base.Int.{pos}
use backsnap.Base.Dict.{Dict, insert, copy_into}
use backsnap.Go.Lo.{Lo}
use backsnap.Kube.{OwnerReference, ObjectMeta, Quantity, EnvVar, Pvc, VolumeSnapshot, Job}
use backsnap.Api.{PvcBackup}
use backsnap.Settings.{BackupSettings, backup_schedule_annotation, data_volume}
use backsnap.Settings.{backup_storage_class_name}
use backsnap.Settings.Env.{restic_env}

-- The metadata of an object of the backup, before the server and SetControllerReference fill it.
abbrev pub child_meta : PvcBackup → Dict String → ObjectMeta
child_meta b annotations = record {
  namespace = b.meta.namespace;
  name = b.meta.name;
  uid = "";
  labels = b.spec.labels;
  annotations = annotations;
  creation_timestamp = pos 0;
  owner_references = [];
}

abbrev pub owned : ObjectMeta → List OwnerReference → ObjectMeta
owned m owners = record m { owner_references = owners }

unfoldable pub new_snapshot : BackupSettings → PvcBackup → String → VolumeSnapshot
new_snapshot s b pvc_name = record {
  meta = child_meta b b.spec.annotations;
  persistent_volume_claim_name = some pvc_name;
  volume_snapshot_class_name = if str_eq s.snapshot_class "" then none else some s.snapshot_class;
  status = none;
}

-- The annotations of the temporary PVC: an empty schedule prevents that it is backed up itself.
unfoldable pub snapshot_pvc_annotations : PvcBackup → Dict String
unfolding insert copy_into
snapshot_pvc_annotations b = insert backup_schedule_annotation "" (copy_into [] b.spec.annotations)

unfoldable pub new_snapshot_pvc : BackupSettings → PvcBackup → String → Quantity → Pvc
unfolding snapshot_pvc_annotations backup_storage_class_name
new_snapshot_pvc s b snapshot_name restore_size = record {
  meta = child_meta b (snapshot_pvc_annotations b);
  storage_class_name = backup_storage_class_name s b.spec.storage_class_name;
  data_source = some (record {
    api_group = some "snapshot.storage.k8s.io";
    kind = "VolumeSnapshot";
    name = snapshot_name;
  });
  access_modes = "ReadWriteOnce" ∷ [];
  requests = ("storage", restore_size) ∷ [];
}

abbrev pub env_var : String → String → EnvVar
env_var name value = record { name = name; value = value }

-- The variables that the operator manages, for the PVC of the backup.
unfoldable pub backup_env : BackupSettings → String → String → List EnvVar
backup_env s pvc_namespace pvc_name =
    env_var "BACKUP_NAMESPACE" pvc_namespace
    ∷ env_var "BACKUP_VOLUME" pvc_name
    ∷ env_var "RESTIC_REPOSITORY_BASE" ("s3:" <> (s.s3_host <> ("/" <> s.s3_bucket)))
    ∷ env_var "RESTIC_PASSWORD" s.restic_password
    ∷ env_var "BACKSNAP_OLD_RESTIC_PASSWORD" s.restic_old_password
    ∷ env_var "AWS_ACCESS_KEY_ID" s.s3_access_key_id
    ∷ env_var "AWS_SECRET_ACCESS_KEY" s.s3_secret_access_key
    ∷ env_var "RESTIC_HOSTNAME" "$(BACKUP_NAMESPACE)"
    ∷ env_var "RESTIC_REPOSITORY" "$(RESTIC_REPOSITORY_BASE)/$(BACKUP_NAMESPACE)/$(BACKUP_VOLUME)"
    ∷ []

unfoldable pub new_backup_job : Lo → BackupSettings → PvcBackup → Pvc → String → Job
new_backup_job lo s b pvc snapshot_pvc_name = record {
  meta = child_meta b b.spec.annotations;
  backoff_limit = some 4;
  template_labels = b.spec.labels;
  template_annotations = b.spec.annotations;
  template = record {
    image_pull_secrets = if str_eq s.image_pull_secret "" then [] else s.image_pull_secret ∷ [];
    restart_policy = "Never";
    node_selector = b.spec.node_selector;
    tolerations = b.spec.tolerations;
    priority_class_name = b.spec.priority_class_name;
    volumes = record { name = data_volume; claim_name = snapshot_pvc_name; read_only = true } ∷ [];
    containers =
        record {
          name = "default";
          image = s.image;
          image_pull_policy = "Always";
          command = [];
          env = restic_env lo s.restic_env (backup_env s pvc.meta.namespace pvc.meta.name);
          resources = s.restic_resources;
          volume_mounts =
              record { name = data_volume; read_only = true; mount_path = "/data" } ∷ [];
        }
        ∷ [];
  };
  completion_time = none;
}
