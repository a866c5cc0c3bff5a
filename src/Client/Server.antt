-- ===== src/Client/Server.antt =====
-- A Kubernetes API that works and to which nobody else writes during a reconcile, as a store of
-- objects: what the documentation says of each request, where it succeeds.
use backsnap.Base.{◌≡◌, ◌≢◌, String, Bool, true, false, ◌&&◌, Option, none, some, [], ◌∷◌, str_eq}
use backsnap.Base.{if◌then◌else◌, arith}
use backsnap.Go.Time.{Duration, is_zero}
use backsnap.Kube.{
  key_of, NamespacedName, OwnerReference, ObjectMeta, Namespace, Pvc, VolumeSnapshot, Job,
}
use backsnap.Api.{PvcBackup, PvcRestore}
use backsnap.Client.{Client, Reply, ok, err}
use text.Mathlib.TextPositions.{eq_refl}

abbrev pub same_key : NamespacedName → NamespacedName → Bool
same_key k j = str_eq k.name j.name && str_eq k.namespace j.namespace

-- The objects of one kind, by their key.
abbrev pub Store : Type 0 → Type 0
Store A = NamespacedName → Option A

unfoldable pub put : {A : Type 0} → NamespacedName → Option A → Store A → Store A
put k v f j = if same_key k j then v else f j

pub put_self : {A : Type 0} (k : NamespacedName) (v : Option A) (f : Store A) → put k v f k ≡ v
unfolding put
put_self k v f = ground (arith, eq_refl k.name, eq_refl k.namespace)

pub put_other :
    {A : Type 0} (k j : NamespacedName) (v : Option A) (f : Store A)
    → same_key k j ≡ false
    → put k v f j ≡ f j
unfolding put
put_other k j v f h = ground arith

pub record Objects : Type 0 where
  pub backups : Store PvcBackup
  pub restores : Store PvcRestore
  pub namespaces : String → Option Namespace
  pub pvcs : Store Pvc
  pub snapshots : Store VolumeSnapshot
  pub jobs : Store Job

-- The reply to a Get of an object that is there, or is not.
abbrev pub found : {F A : Type 0} → F → Option A → Reply F A
found missing none = err missing
found missing (some a) = ok a

-- The reply to a Delete of an object that is there, or is not.
abbrev pub deleted : {F A : Type 0} → F → Option A → Reply F Unit
deleted missing none = err missing
deleted missing (some a) = ok tt

-- In world `w`, `op` replies `r`, and leaves the objects `o`.
abbrev pub Answers : {W A : Type 0} → (W → Objects) → (W → A × W) → W → A → Objects → Type 0
Answers objects op w r o = ((op w).0 ≡ r) × (objects (op w).1 ≡ o)

pub record IsServer (C : Client) (objects : C.World → Objects) : Type 1 where
  -- The error for an object that is not there.
  pub missing : C.Failure
  pub missing_lem : C.is_not_found missing ≡ true
  -- The metadata that an object has once it is created: the server adds a UID and a creation time.
  pub assigned : C.World → ObjectMeta → ObjectMeta
  pub assigned-key : (w : C.World) (m : ObjectMeta) → key_of (assigned w m) ≡ key_of m
  pub assigned-annotations :
      (w : C.World) (m : ObjectMeta) → (assigned w m).annotations ≡ m.annotations
  -- Get reads the object, and a read changes nothing.
  pub get_backup-Answers :
      (k : NamespacedName) (w : C.World)
      → Answers objects (C.get_backup k) w (found missing ((objects w).backups k)) (objects w)
  pub get_restore-Answers :
      (k : NamespacedName) (w : C.World)
      → Answers objects (C.get_restore k) w (found missing ((objects w).restores k)) (objects w)
  pub get_pvc-Answers :
      (k : NamespacedName) (w : C.World)
      → Answers objects (C.get_pvc k) w (found missing ((objects w).pvcs k)) (objects w)
  pub get_snapshot-Answers :
      (k : NamespacedName) (w : C.World)
      → Answers objects (C.get_snapshot k) w (found missing ((objects w).snapshots k)) (objects w)
  pub get_job-Answers :
      (k : NamespacedName) (w : C.World)
      → Answers objects (C.get_job k) w (found missing ((objects w).jobs k)) (objects w)
  pub get_namespace-Answers :
      (k : NamespacedName) (w : C.World)
      → Answers objects
          (C.get_namespace k)
          w
          (found missing ((objects w).namespaces k.name))
          (objects w)
  -- Create of an object that is not there stores it, with its metadata.
  pub create_backup-Answers :
      (x : PvcBackup) (w : C.World)
      → (objects w).backups (key_of x.meta) ≡ none
      → let y = record x { meta = assigned w x.meta } in
        Answers objects
          (C.create_backup x)
          w
          (ok y)
          (record (objects w) { backups = put (key_of x.meta) (some y) (objects w).backups })
  pub create_pvc-Answers :
      (x : Pvc) (w : C.World)
      → (objects w).pvcs (key_of x.meta) ≡ none
      → let y = record x { meta = assigned w x.meta } in
        Answers objects
          (C.create_pvc x)
          w
          (ok y)
          (record (objects w) { pvcs = put (key_of x.meta) (some y) (objects w).pvcs })
  pub create_snapshot-Answers :
      (x : VolumeSnapshot) (w : C.World)
      → (objects w).snapshots (key_of x.meta) ≡ none
      → let y = record x { meta = assigned w x.meta } in
        Answers objects
          (C.create_snapshot x)
          w
          (ok y)
          (record (objects w) { snapshots = put (key_of x.meta) (some y) (objects w).snapshots })
  pub create_job-Answers :
      (x : Job) (w : C.World)
      → (objects w).jobs (key_of x.meta) ≡ none
      → let y = record x { meta = assigned w x.meta } in
        Answers objects
          (C.create_job x)
          w
          (ok y)
          (record (objects w) { jobs = put (key_of x.meta) (some y) (objects w).jobs })
  -- Update of an object that is there stores it; Status().Update stores its status.
  pub update_pvc-Answers :
      (x : Pvc) (w : C.World)
      → (objects w).pvcs (key_of x.meta) ≢ none
      → Answers objects
          (C.update_pvc x)
          w
          (ok x)
          (record (objects w) { pvcs = put (key_of x.meta) (some x) (objects w).pvcs })
  pub update_backup_status-Answers :
      (x old : PvcBackup) (w : C.World)
      → (objects w).backups (key_of x.meta) ≡ some old
      → let y = record old { status = x.status } in
        Answers objects
          (C.update_backup_status x)
          w
          (ok y)
          (record (objects w) { backups = put (key_of x.meta) (some y) (objects w).backups })
  pub update_restore_status-Answers :
      (x old : PvcRestore) (w : C.World)
      → (objects w).restores (key_of x.meta) ≡ some old
      → let y = record old { status = x.status } in
        Answers objects
          (C.update_restore_status x)
          w
          (ok y)
          (record (objects w) { restores = put (key_of x.meta) (some y) (objects w).restores })
  -- Delete removes the object.
  pub delete_pvc-Answers :
      (k : NamespacedName) (w : C.World)
      → Answers objects
          (C.delete_pvc k)
          w
          (deleted missing ((objects w).pvcs k))
          (record (objects w) { pvcs = put k none (objects w).pvcs })
  pub delete_snapshot-Answers :
      (k : NamespacedName) (w : C.World)
      → Answers objects
          (C.delete_snapshot k)
          w
          (deleted missing ((objects w).snapshots k))
          (record (objects w) { snapshots = put k none (objects w).snapshots })
  pub delete_job-Answers :
      (k : NamespacedName) (w : C.World)
      → Answers objects
          (C.delete_job k)
          w
          (deleted missing ((objects w).jobs k))
          (record (objects w) { jobs = put k none (objects w).jobs })
  -- An object without an owner gets one of the same namespace.
  pub owner : String → ObjectMeta → OwnerReference
  pub set_controller_reference-ok :
      (kind : String) (o m : ObjectMeta)
      → o.namespace ≡ m.namespace
      → m.owner_references ≡ []
      → C.set_controller_reference kind o m ≡ ok (owner kind o ∷ [])
  -- The clock, which is past the zero time, the sleep and a poll of a condition that holds at once.
  pub now-objects : (w : C.World) → objects (C.now w).1 ≡ objects w
  pub now-nonzero : (w : C.World) → is_zero (some (C.now w).0) ≡ false
  pub clock_now-objects : (w : C.World) → objects (C.clock_now w).1 ≡ objects w
  pub sleep-objects : (d : Duration) (w : C.World) → objects (C.sleep d w) ≡ objects w
  pub poll-at_once :
      (interval timeout : Duration) (condition : C.World → Reply C.Failure Bool × C.World)
      (w : C.World)
      → (condition w).0 ≡ ok true
      → C.poll interval timeout true condition w ≡ (ok tt, (condition w).1)
