-- ===== src/Manager.antt =====
-- controller-runtime's manager and its builder of controllers. They are third-party code, so the
-- operations are parameters, each of which may fail.
use backsnap.Base.{String, Bool, Option, List}
use backsnap.Kube.{ObjectMeta, OwnerReference}
use backsnap.Api.{PvcBackup}
use backsnap.Client.{Reply}
use backsnap.Backup.State.{Config}
use backsnap.Restore.Steps.{RestoreConfig}
use backsnap.Automatic.Requests.{AutomaticConfig}

pub data Kind : Type 0 where
  persistent_volume_claim namespace volume_snapshot job pvc_backup pvc_restore : Kind

-- The map functions of the watches.
pub data Handler : Type 0 where
  pvc_to_request namespace_to_requests : Handler

-- predicate.ResourceVersionChangedPredicate
pub data Predicate : Type 0 where
  resource_version_changed : Predicate

-- What Watches is told: EnqueueRequestsFromMapFunc and WithPredicates.
pub record Watch : Type 0 where
  pub kind : Kind
  pub handler : Handler
  pub predicates : List Predicate

-- A reconciler, with the fields that `main` gives it.
pub data Reconciler : Type 0 where
  automatic_creator : AutomaticConfig → Reconciler
  backup_reconciler : Config → Reconciler
  restore_reconciler : RestoreConfig → Reconciler

-- What a builder is told: Named, For, Owns and Watches.
pub record Controller : Type 0 where
  pub named : Option String
  pub primary : Option Kind
  pub owns : List Kind
  pub watches : List Watch

-- `ctrl.Options`
pub record Options : Type 0 where
  pub metrics_bind_address : String
  pub health_probe_bind_address : String
  pub leader_election : Bool
  pub leader_election_id : String
  pub leader_election_release_on_cancel : Bool

pub record Runtime : Type 1 where
  pub System : Type 0
  pub Failure : Type 0
  pub Manager : Type 0
  -- ctrl.NewManager, with the scheme and the configuration of the cluster.
  pub new_manager : Options → System → Reply Failure Manager × System
  -- metav1.GetControllerOf, and the text of corev1.SchemeGroupVersion.
  pub get_controller_of : ObjectMeta → Option OwnerReference
  pub core_version : String
  -- GetFieldIndexer().IndexField, of PVCBackups.
  pub index_field :
      Manager → String → (PvcBackup → List String) → System → Reply Failure Unit × System
  -- Complete
  pub complete : Manager → Controller → Reconciler → System → Reply Failure Unit × System
  -- AddHealthzCheck and AddReadyzCheck, with healthz.Ping.
  pub add_healthz_check : Manager → String → System → Reply Failure Unit × System
  pub add_readyz_check : Manager → String → System → Reply Failure Unit × System
  -- Start, until a signal.
  pub start : Manager → System → Reply Failure Unit × System
