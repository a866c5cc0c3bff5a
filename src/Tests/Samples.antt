-- ===== src/Tests/Samples.antt =====
-- Objects, settings and a schedule for the tests.
use backsnap.Base.{
  ℕ, ◌*◌, ◌/◌, String, Bool, none, some, [], ◌∷◌, false, arith, if◌then◌else◌, ◌≡◌, refl, ◌⊎◌,
}
use backsnap.Base.Int.{ℤ, pos, ◌+ℤ◌, +ℤ_parts, ltb_ℤ, eq_ℤ, ◌<ℤ◌}
use backsnap.Base.Dict.{Dict}
use backsnap.Go.Time.{Time, hour}
use backsnap.Kube.{NamespacedName, ObjectMeta, Namespace, Pvc, VolumeSnapshot, Job}
use backsnap.Api.{PvcBackup, PvcBackupStatus, PvcRestore}
use backsnap.Client.{ok}
use backsnap.Settings.{BackupSettings, backup_schedule_annotation}
use backsnap.Backup.State.{Config}
use backsnap.Restore.Steps.{RestoreConfig}
use backsnap.Automatic.Schedule.{Cron, Float}
use backsnap.Automatic.Requests.{AutomaticConfig}
use backsnap.Automatic.Due.{IsCron}
use backsnap.Tests.Cluster.{World}

abbrev pub key : String → NamespacedName
key name = record { namespace = "shop"; name = name }

abbrev pub meta : String → Dict String → Time → ObjectMeta
meta name annotations created = record {
  namespace = "shop";
  name = name;
  uid = name;
  labels = [];
  annotations = annotations;
  creation_timestamp = created;
  owner_references = [];
}

abbrev pub unset : PvcBackupStatus
unset = record { started_at = none; finished_at = none; duration = none; result = none }

-- Finished successfully at the time, after a second.
abbrev pub finished_at : ℕ → PvcBackupStatus
finished_at t = record {
  started_at = some (pos 1);
  finished_at = some (pos t);
  duration = some (pos 1000000000);
  result = some "Succeeded";
}

-- A backup of PVC `data`, with a TTL of an hour.
abbrev pub backup : String → ℕ → PvcBackupStatus → PvcBackup
backup name created status = record {
  meta = meta name [] (pos created);
  spec = record {
    pvc_name = "data";
    ttl = hour;
    storage_class_name = "";
    node_selector = [];
    tolerations = [];
    priority_class_name = "";
    labels = [];
    annotations = [];
  };
  status = status;
}

abbrev pub restore : PvcRestore
restore = record {
  meta = meta "back" [] (pos 1);
  spec = record {
    source_pvc = "data";
    source_namespace = "";
    source_snapshot = "";
    target_pvc = "";
    target_pvc_size = record { text = "1Gi" };
    storage_class_name = "";
    node_selector = [];
    tolerations = [];
    priority_class_name = "";
    labels = [];
    annotations = [];
  };
  status = record { started_at = none; finished_at = none; duration = none; result = none };
}

abbrev pub pvc : String → Dict String → Pvc
pvc name annotations = record {
  meta = meta name annotations (pos 1);
  storage_class_name = none;
  data_source = none;
  access_modes = "ReadWriteOnce" ∷ [];
  requests = [];
}

abbrev pub shop : Namespace
shop = record {
  meta = record (meta "shop" ((backup_schedule_annotation, "@daily") ∷ []) (pos 1)) {
    namespace = "";
  };
}

abbrev pub ready : String → VolumeSnapshot
ready name = record {
  meta = meta name [] (pos 1);
  persistent_volume_claim_name = some "data";
  volume_snapshot_class_name = none;
  status =
      some
        (record { ready_to_use = some Bool.true; restore_size = some (record { text = "1Gi" }) });
}

abbrev pub completed : String → Job
completed name = record {
  meta = meta name [] (pos 1);
  backoff_limit = none;
  template_labels = [];
  template_annotations = [];
  template = record {
    image_pull_secrets = [];
    restart_policy = "OnFailure";
    node_selector = [];
    tolerations = [];
    priority_class_name = "";
    volumes = [];
    containers = [];
  };
  completion_time = some (pos 9);
}

-- Five hours after the zero time.
abbrev pub world : World
world = record {
  clock = pos 18000000000000;
  broken = false;
  backups = [];
  restores = [];
  namespaces = shop ∷ [];
  pvcs = pvc "data" [] ∷ [];
  snapshots = [];
  jobs = [];
  log = [];
}

abbrev pub settings : BackupSettings
settings = record {
  snapshot_class = "";
  storage_class = "fast";
  backup_storage_class = "";
  restore_storage_class = "";
  image_pull_secret = "";
  image = "restic";
  s3_host = "s3.example.com";
  s3_bucket = "backups";
  s3_access_key_id = "id";
  s3_secret_access_key = "key";
  restic_password = "secret";
  restic_old_password = "";
  restic_env = ("RESTIC_COMPRESSION", "max") ∷ [];
  restic_resources = record { limits = []; requests = [] };
}

-- At most one backup at a time, in all namespaces.
abbrev pub config : Config
config = record {
  max_running_backups = pos 1;
  sleep_between_backups = pos 0;
  namespaces = "" ∷ [];
  exclude_namespaces = "kube-system" ∷ [];
  backup_settings = settings;
}

abbrev pub restore_config : RestoreConfig
restore_config = record {
  namespaces = "" ∷ [];
  exclude_namespaces = [];
  backup_settings = settings;
}

abbrev pub automatic_config : AutomaticConfig
automatic_config = record {
  default_schedule = "";
  namespaces = "" ∷ [];
  exclude_namespaces = "kube-system" ∷ [];
}

-- Every expression means two hours after each time but the zero time.
abbrev pub two_hours_after : Time → Time
two_hours_after t = if eq_ℤ t (pos 0) then pos 0 else t +ℤ pos 7200000000000

abbrev pub two_hours : Cron
two_hours = record {
  Expression = Unit;
  parse = λ text. ok tt;
  next_after = λ e t. two_hours_after t;
}

two_hours_after-gt : (t : Time) → (two_hours_after t ≡ pos 0) ⊎ (t <ℤ two_hours_after t)
two_hours_after-gt t = ground (arith, +ℤ_parts t (pos 7200000000000))

pub two_hours-IsCron : IsCron two_hours
two_hours-IsCron = record { next_after-zero = λ e. refl; next_after-gt = λ e. two_hours_after-gt }

-- Whole numbers, and 0.01 as one of a hundred.
abbrev scaled : ℤ → ℤ → ℤ
scaled (pos a) (pos b) = pos (a * b / 100)
scaled a b = pos 0

abbrev pub percent : Float
percent = record {
  F64 = ℤ;
  of_int = λ n. n;
  product = scaled;
  less = ltb_ℤ;
  schedule_interval_tolerance = pos 1;
}
