-- ===== src/Kube.antt =====
-- The Kubernetes objects that the source reads and writes, with the fields that it uses. They are
-- types of k8s.io/api, apimachinery and external-snapshotter; a nil pointer is `none`, an absent
-- map or slice is the empty one.
use backsnap.Base.{ℕ, String, Bool, Option, List}
use backsnap.Base.Int.{ℤ}
use backsnap.Base.Dict.{Dict}
use backsnap.Go.Time.{Time, Duration}

-- types.NamespacedName, also the request of a reconcile.
pub record NamespacedName : Type 0 where
  pub namespace : String
  pub name : String

pub record OwnerReference : Type 0 where
  pub api_version : String
  pub kind : String
  pub name : String
  pub uid : String
  pub controller : Bool

-- metav1.ObjectMeta
pub record ObjectMeta : Type 0 where
  pub namespace : String
  pub name : String
  pub uid : String
  pub labels : Dict String
  pub annotations : Dict String
  pub creation_timestamp : Time
  pub owner_references : List OwnerReference

abbrev pub key_of : ObjectMeta → NamespacedName
key_of m = record { namespace = m.namespace; name = m.name }

-- resource.Quantity, which the source only copies.
pub record Quantity : Type 0 where
  pub text : String

-- corev1.Toleration, which the source only copies.
pub record Toleration : Type 0 where
  pub key : String
  pub operator : String
  pub value : String
  pub effect : String
  pub toleration_seconds : Option ℤ

pub record ResourceRequirements : Type 0 where
  pub limits : Dict Quantity
  pub requests : Dict Quantity

pub record EnvVar : Type 0 where
  pub name : String
  pub value : String

pub record Namespace : Type 0 where
  pub meta : ObjectMeta

-- corev1.TypedLocalObjectReference
pub record DataSource : Type 0 where
  pub api_group : Option String
  pub kind : String
  pub name : String

pub record Pvc : Type 0 where
  pub meta : ObjectMeta
  pub storage_class_name : Option String
  pub data_source : Option DataSource
  pub access_modes : List String
  pub requests : Dict Quantity

pub record SnapshotStatus : Type 0 where
  pub ready_to_use : Option Bool
  pub restore_size : Option Quantity

pub record VolumeSnapshot : Type 0 where
  pub meta : ObjectMeta
  pub persistent_volume_claim_name : Option String
  pub volume_snapshot_class_name : Option String
  pub status : Option SnapshotStatus

pub record Volume : Type 0 where
  pub name : String
  pub claim_name : String
  pub read_only : Bool

pub record VolumeMount : Type 0 where
  pub name : String
  pub read_only : Bool
  pub mount_path : String

pub record Container : Type 0 where
  pub name : String
  pub image : String
  pub image_pull_policy : String
  pub command : List String
  pub env : List EnvVar
  pub resources : ResourceRequirements
  pub volume_mounts : List VolumeMount

pub record PodSpec : Type 0 where
  pub image_pull_secrets : List String
  pub restart_policy : String
  pub node_selector : Dict String
  pub tolerations : List Toleration
  pub priority_class_name : String
  pub volumes : List Volume
  pub containers : List Container

-- batchv1.Job; the template's metadata are its labels and annotations.
pub record Job : Type 0 where
  pub meta : ObjectMeta
  pub backoff_limit : Option ℕ
  pub template_labels : Dict String
  pub template_annotations : Dict String
  pub template : PodSpec
  pub completion_time : Option Time

-- ctrl.Result
pub record Result : Type 0 where
  pub requeue_after : Duration
