-- ===== src/Client.antt =====
-- The Kubernetes API as the source uses it, through controller-runtime's client, and the clock.
-- It is third-party code, so it is a parameter: a world that each call reads and may change. The
-- cluster moves on by itself and other controllers write to it, so no call is assumed to leave the
-- world alone, and two reads need not agree.
pub mod History
pub mod Actions
pub mod Calls
pub mod Pace
pub mod Server
pub mod Machine
use backsnap.Base.{String, Bool, List, Option}
use backsnap.Go.Time.{Time, Duration}
use backsnap.Kube.{NamespacedName, OwnerReference, ObjectMeta, Namespace, Pvc, VolumeSnapshot, Job}
use backsnap.Api.{PvcBackup, PvcRestore}

-- What a call returns: a value, or an error.
pub data Reply (F A : Type 0) : Type 0 where
  ok : A → Reply F A
  err : F → Reply F A

pub record Client : Type 1 where
  pub World : Type 0
  pub Failure : Type 0
  -- apierrors.IsNotFound
  pub is_not_found : Failure → Bool
  -- Get
  pub get_backup : NamespacedName → World → Reply Failure PvcBackup × World
  pub get_restore : NamespacedName → World → Reply Failure PvcRestore × World
  pub get_namespace : NamespacedName → World → Reply Failure Namespace × World
  pub get_pvc : NamespacedName → World → Reply Failure Pvc × World
  pub get_snapshot : NamespacedName → World → Reply Failure VolumeSnapshot × World
  pub get_job : NamespacedName → World → Reply Failure Job × World
  -- List, of all namespaces (`none`) or of one.
  pub list_backups : Option String → World → Reply Failure (List PvcBackup) × World
  -- List in a namespace with MatchingFields on the index of `SetupWithManager`.
  pub list_child_backups : String → String → World → Reply Failure (List PvcBackup) × World
  pub list_pvcs : String → World → Reply Failure (List Pvc) × World
  -- Create, which returns the object as the server has stored it.
  pub create_backup : PvcBackup → World → Reply Failure PvcBackup × World
  pub create_pvc : Pvc → World → Reply Failure Pvc × World
  pub create_snapshot : VolumeSnapshot → World → Reply Failure VolumeSnapshot × World
  pub create_job : Job → World → Reply Failure Job × World
  -- Update and Status().Update, which return the object as the server has stored it.
  pub update_pvc : Pvc → World → Reply Failure Pvc × World
  pub update_backup_status : PvcBackup → World → Reply Failure PvcBackup × World
  pub update_restore_status : PvcRestore → World → Reply Failure PvcRestore × World
  -- Delete; the last three are in the background.
  pub delete_backup : NamespacedName → World → Reply Failure Unit × World
  pub delete_snapshot : NamespacedName → World → Reply Failure Unit × World
  pub delete_job : NamespacedName → World → Reply Failure Unit × World
  pub delete_pvc : NamespacedName → World → Reply Failure Unit × World
  -- ctrl.SetControllerReference, from the owner's kind (by the scheme) and metadata and the
  -- controlled object's metadata: the owner references that the object gets.
  pub set_controller_reference :
      String → ObjectMeta → ObjectMeta → Reply Failure (List OwnerReference)
  -- time.Now, the reconciler's own Clock, and time.Sleep
  pub now : World → Time × World
  pub clock_now : World → Time × World
  pub sleep : Duration → World → World
  -- wait.PollUntilContextTimeout with its interval, timeout, `immediate` and condition.
  pub poll :
      Duration
      → Duration
      → Bool
      → (World → Reply Failure Bool × World)
      → World
      → Reply Failure Unit × World
