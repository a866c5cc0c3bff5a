-- ===== src/Client/History.antt =====
-- The requests that a reconciler has sent to the Kubernetes API, with the replies that it got. A
-- world carries its history in these laws; they assume nothing of how the API replies.
use backsnap.Base.{String, Bool, ◌≡◌, Option, List, ◌∷◌}
use backsnap.Go.Time.{Duration}
use backsnap.Kube.{NamespacedName, Namespace, Pvc, VolumeSnapshot, Job}
use backsnap.Api.{PvcBackup, PvcRestore}
use backsnap.Client.{Client, Reply}

pub data Event (F : Type 0) : Type 0 where
  got_backup : NamespacedName → Reply F PvcBackup → Event F
  got_restore : NamespacedName → Reply F PvcRestore → Event F
  got_namespace : NamespacedName → Reply F Namespace → Event F
  got_pvc : NamespacedName → Reply F Pvc → Event F
  got_snapshot : NamespacedName → Reply F VolumeSnapshot → Event F
  got_job : NamespacedName → Reply F Job → Event F
  listed_backups : Option String → Reply F (List PvcBackup) → Event F
  listed_child_backups : String → String → Reply F (List PvcBackup) → Event F
  listed_pvcs : String → Reply F (List Pvc) → Event F
  created_backup : PvcBackup → Reply F PvcBackup → Event F
  created_pvc : Pvc → Reply F Pvc → Event F
  created_snapshot : VolumeSnapshot → Reply F VolumeSnapshot → Event F
  created_job : Job → Reply F Job → Event F
  updated_pvc : Pvc → Reply F Pvc → Event F
  updated_backup_status : PvcBackup → Reply F PvcBackup → Event F
  updated_restore_status : PvcRestore → Reply F PvcRestore → Event F
  deleted_backup : NamespacedName → Reply F Unit → Event F
  deleted_snapshot : NamespacedName → Reply F Unit → Event F
  deleted_job : NamespacedName → Reply F Unit → Event F
  deleted_pvc : NamespacedName → Reply F Unit → Event F

abbrev pub Events : Client → Type 0
Events C = List (Event C.Failure)

-- `history w` lists the requests of world `w`, the latest first: each call adds itself, and the
-- clock and the sleep add nothing. A poll calls its condition and nothing else: what each call of
-- the condition keeps, the poll keeps.
pub record IsRecorded (C : Client) (history : C.World → Events C) : Type 1 where
  pub get_backup-event :
      (k : NamespacedName) (w : C.World)
      → history (C.get_backup k w).1 ≡ got_backup k (C.get_backup k w).0 ∷ history w
  pub get_restore-event :
      (k : NamespacedName) (w : C.World)
      → history (C.get_restore k w).1 ≡ got_restore k (C.get_restore k w).0 ∷ history w
  pub get_namespace-event :
      (k : NamespacedName) (w : C.World)
      → history (C.get_namespace k w).1 ≡ got_namespace k (C.get_namespace k w).0 ∷ history w
  pub get_pvc-event :
      (k : NamespacedName) (w : C.World)
      → history (C.get_pvc k w).1 ≡ got_pvc k (C.get_pvc k w).0 ∷ history w
  pub get_snapshot-event :
      (k : NamespacedName) (w : C.World)
      → history (C.get_snapshot k w).1 ≡ got_snapshot k (C.get_snapshot k w).0 ∷ history w
  pub get_job-event :
      (k : NamespacedName) (w : C.World)
      → history (C.get_job k w).1 ≡ got_job k (C.get_job k w).0 ∷ history w
  pub list_backups-event :
      (k : Option String) (w : C.World)
      → history (C.list_backups k w).1 ≡ listed_backups k (C.list_backups k w).0 ∷ history w
  pub list_child_backups-event :
      (k : String) (l : String) (w : C.World)
      → history (C.list_child_backups k l w).1
        ≡ listed_child_backups k l (C.list_child_backups k l w).0 ∷ history w
  pub list_pvcs-event :
      (k : String) (w : C.World)
      → history (C.list_pvcs k w).1 ≡ listed_pvcs k (C.list_pvcs k w).0 ∷ history w
  pub create_backup-event :
      (x : PvcBackup) (w : C.World)
      → history (C.create_backup x w).1 ≡ created_backup x (C.create_backup x w).0 ∷ history w
  pub create_pvc-event :
      (x : Pvc) (w : C.World)
      → history (C.create_pvc x w).1 ≡ created_pvc x (C.create_pvc x w).0 ∷ history w
  pub create_snapshot-event :
      (x : VolumeSnapshot) (w : C.World)
      → history (C.create_snapshot x w).1 ≡ created_snapshot x (C.create_snapshot x w).0 ∷ history w
  pub create_job-event :
      (x : Job) (w : C.World)
      → history (C.create_job x w).1 ≡ created_job x (C.create_job x w).0 ∷ history w
  pub update_pvc-event :
      (x : Pvc) (w : C.World)
      → history (C.update_pvc x w).1 ≡ updated_pvc x (C.update_pvc x w).0 ∷ history w
  pub update_backup_status-event :
      (x : PvcBackup) (w : C.World)
      → history (C.update_backup_status x w).1
        ≡ updated_backup_status x (C.update_backup_status x w).0 ∷ history w
  pub update_restore_status-event :
      (x : PvcRestore) (w : C.World)
      → history (C.update_restore_status x w).1
        ≡ updated_restore_status x (C.update_restore_status x w).0 ∷ history w
  pub delete_backup-event :
      (k : NamespacedName) (w : C.World)
      → history (C.delete_backup k w).1 ≡ deleted_backup k (C.delete_backup k w).0 ∷ history w
  pub delete_snapshot-event :
      (k : NamespacedName) (w : C.World)
      → history (C.delete_snapshot k w).1 ≡ deleted_snapshot k (C.delete_snapshot k w).0 ∷ history w
  pub delete_job-event :
      (k : NamespacedName) (w : C.World)
      → history (C.delete_job k w).1 ≡ deleted_job k (C.delete_job k w).0 ∷ history w
  pub delete_pvc-event :
      (k : NamespacedName) (w : C.World)
      → history (C.delete_pvc k w).1 ≡ deleted_pvc k (C.delete_pvc k w).0 ∷ history w
  pub now-event : (w : C.World) → history (C.now w).1 ≡ history w
  pub clock_now-event : (w : C.World) → history (C.clock_now w).1 ≡ history w
  pub sleep-event : (d : Duration) (w : C.World) → history (C.sleep d w) ≡ history w
  pub poll-event :
      (P : C.World → Type 0) (interval timeout : Duration) (immediate : Bool)
      (condition : C.World → Reply C.Failure Bool × C.World)
      → ((w : C.World) → P w → P (condition w).1)
      → (w : C.World) → P w
      → P (C.poll interval timeout immediate condition w).1
