-- ===== src/Restore/Objects.antt =====
-- The objects that `Reconcile` creates for a restore: the PVC to restore to, and the Job that runs
-- restic on it.
use backsnap.Base.{String, ◌<>◌, false, Option, none, some, List, [], ◌∷◌, str_eq, if◌then◌else◌}
use backsnap.Base.Int.{pos}
use backsnap.Base.Dict.{Dict, insert, copy_into}
use backsnap.Go.Time.{Time, sub, round}
use backsnap.Go.Lo.{Lo}
use backsnap.Kube.{EnvVar, Pvc, Job}
use backsnap.Api.{PvcRestore}
use backsnap.Settings.{BackupSettings, currently_restoring_annotation, data_volume}
use backsnap.Settings.{restore_storage_class_name}
use backsnap.Settings.Env.{restic_env}

-- The PVC to restore to has the name of the source, unless it is given.
unfoldable pub target_of : PvcRestore → String
target_of r = if str_eq r.spec.target_pvc "" then r.spec.source_pvc else r.spec.target_pvc

-- The annotations of the PVC and of the Job carry the UID of the PVCRestore.
unfoldable pub restoring_annotations : PvcRestore → Dict String
unfolding insert copy_into
restoring_annotations r =
    insert currently_restoring_annotation r.meta.uid (copy_into [] r.spec.annotations)

-- The PVC has no owner, so that it outlives the PVCRestore.
unfoldable pub new_target_pvc : BackupSettings → String → String → PvcRestore → Pvc
unfolding restoring_annotations restore_storage_class_name
new_target_pvc s namespace target r = record {
  meta = record {
    namespace = namespace;
    name = target;
    uid = "";
    labels = r.spec.labels;
    annotations = restoring_annotations r;
    creation_timestamp = pos 0;
    owner_references = [];
  };
  storage_class_name = restore_storage_class_name s r.spec.storage_class_name;
  data_source = none;
  access_modes = "ReadWriteOnce" ∷ [];
  requests = ("storage", r.spec.target_pvc_size) ∷ [];
}

-- The defaults that are put into the PVCRestore before the Job is made.
unfoldable pub with_defaults : PvcRestore → PvcRestore
with_defaults r = record r {
  spec = record r.spec {
    source_namespace =
        if str_eq r.spec.source_namespace "" then r.meta.namespace else r.spec.source_namespace;
    source_snapshot = if str_eq r.spec.source_snapshot "" then "latest" else r.spec.source_snapshot;
  };
}

abbrev env_var : String → String → EnvVar
env_var name value = record { name = name; value = value }

-- The variables that the operator manages, for a PVCRestore with its defaults.
unfoldable pub restore_env : BackupSettings → PvcRestore → List EnvVar
restore_env s r =
    env_var "BACKUP_NAMESPACE" r.spec.source_namespace
    ∷ env_var "BACKUP_VOLUME" r.spec.source_pvc
    ∷ env_var "RESTIC_REPOSITORY_BASE" ("s3:" <> (s.s3_host <> ("/" <> s.s3_bucket)))
    ∷ env_var "RESTIC_PASSWORD" s.restic_password
    ∷ env_var "AWS_ACCESS_KEY_ID" s.s3_access_key_id
    ∷ env_var "AWS_SECRET_ACCESS_KEY" s.s3_secret_access_key
    ∷ env_var "RESTIC_HOSTNAME" "$(BACKUP_NAMESPACE)"
    ∷ env_var "RESTIC_REPOSITORY" "$(RESTIC_REPOSITORY_BASE)/$(BACKUP_NAMESPACE)/$(BACKUP_VOLUME)"
    ∷ []

-- The Job, from a PVCRestore with its defaults and the name of the PVC.
unfoldable pub new_restore_job : Lo → BackupSettings → PvcRestore → String → Job
unfolding restoring_annotations
new_restore_job lo s r pvc_name = record {
  meta = record {
    namespace = r.meta.namespace;
    name = r.meta.name;
    uid = "";
    labels = r.spec.labels;
    annotations = restoring_annotations r;
    creation_timestamp = pos 0;
    owner_references = [];
  };
  backoff_limit = some 4;
  template_labels = r.spec.labels;
  template_annotations = r.spec.annotations;
  template = record {
    image_pull_secrets = if str_eq s.image_pull_secret "" then [] else s.image_pull_secret ∷ [];
    restart_policy = "OnFailure";
    node_selector = r.spec.node_selector;
    tolerations = r.spec.tolerations;
    priority_class_name = r.spec.priority_class_name;
    volumes = record { name = data_volume; claim_name = pvc_name; read_only = false } ∷ [];
    containers =
        record {
          name = "default";
          image = s.image;
          image_pull_policy = "Always";
          command =
              "restic" ∷ "restore" ∷ r.spec.source_snapshot ∷ "--sparse" ∷ "--verify" ∷ "--target"
              ∷ "/data" ∷ "--retry-lock" ∷ "$(BACKSNAP_RETRY_LOCK)" ∷ [];
          env = restic_env lo s.restic_env (restore_env s r);
          resources = s.restic_resources;
          volume_mounts =
              record { name = data_volume; read_only = false; mount_path = "/data/data" } ∷ [];
        }
        ∷ [];
  };
  completion_time = none;
}

-- `setRestoreFinished`, at time `now`; `none` is the nil dereference of a missing start time.
unfoldable pub set_restore_finished : Time → String → PvcRestore → Option PvcRestore
set_restore_finished now result r = elim r.status.started_at [
  | none ↦ none
  | some started ↦ some (record r {
    status = record r.status {
      finished_at = some now;
      duration = some (round (sub now started) 1000000000);
      result = some result;
    };
  })
]
