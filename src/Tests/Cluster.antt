-- ===== src/Tests/Cluster.antt =====
-- A small cluster in memory, which logs its requests. Its clock shows no time before the zero time.
use backsnap.Base.{refl, String, Bool, true, ◌&&◌, Option, none, some, List, [], ◌∷◌}
use backsnap.Base.{str_eq, if◌then◌else◌}
use backsnap.Base.Int.{pos, ◌+ℤ◌, ◌≤ℤ◌, max_ℤ}
use backsnap.Go.Time.{Time}
use backsnap.Base.{◌≡◌, eq_iff, arith}
use backsnap.Kube.{
  key_of, NamespacedName, OwnerReference, ObjectMeta, Namespace, Pvc, VolumeSnapshot, Job,
}
use backsnap.Api.{PvcBackup, PvcRestore}
use backsnap.Client.{Client, Reply, ok, err}
use backsnap.Client.History.{
  Event, IsRecorded, got_backup, got_restore, got_namespace, got_pvc, got_snapshot, got_job,
  listed_backups, listed_child_backups, listed_pvcs, created_backup, created_pvc, created_snapshot,
  created_job, updated_pvc, updated_backup_status, updated_restore_status, deleted_backup,
  deleted_snapshot, deleted_job, deleted_pvc,
}

-- The objects, the latest version first, and whether listings fail.
pub record World : Type 0 where
  pub clock : Time
  pub broken : Bool
  pub backups : List PvcBackup
  pub restores : List PvcRestore
  pub namespaces : List Namespace
  pub pvcs : List Pvc
  pub snapshots : List VolumeSnapshot
  pub jobs : List Job
  pub log : List (Event String)

abbrev is_at : NamespacedName → ObjectMeta → Bool
is_at k m = str_eq m.name k.name && str_eq m.namespace k.namespace

abbrev find : {A : Type 0} → (A → ObjectMeta) → NamespacedName → List A → Reply String A
find meta_of k [] = err "NotFound"
find meta_of k (a ∷ xs) = let rest = find meta_of k xs in if is_at k (meta_of a) then ok a else rest

abbrev delete : {A : Type 0} → (A → ObjectMeta) → NamespacedName → List A → List A
delete meta_of k [] = []
delete meta_of k (a ∷ xs) =
    let rest = delete meta_of k xs in if is_at k (meta_of a) then rest else a ∷ rest

abbrev select : {A : Type 0} → (A → Bool) → List A → List A
select p [] = []
select p (a ∷ xs) = let rest = select p xs in if p a then a ∷ rest else rest

abbrev listing : {A : Type 0} → Bool → List A → Reply String (List A)
listing broken xs = if broken then err "Timeout" else ok xs

abbrev in_namespace : Option String → ObjectMeta → Bool
in_namespace none m = true
in_namespace (some n) m = str_eq m.namespace n

-- Log a request with its reply.
abbrev reply :
    {A : Type 0} → (Reply String A → Event String) → Reply String A → World → Reply String A × World
reply event r w = (r, record w { log = event r ∷ w.log })

abbrev owner : String → ObjectMeta → OwnerReference
owner kind m = record {
  api_version = "v1";
  kind = kind;
  name = m.name;
  uid = m.uid;
  controller = true;
}

abbrev outcome : Reply String Bool → Reply String Unit
outcome (err e) = err e
outcome (ok seen) = if seen then ok tt else err "Timeout"

-- A poll that looks once.
abbrev poll_once : (World → Reply String Bool × World) → World → Reply String Unit × World
poll_once condition w = let (r, w') = condition w in (outcome r, w')

abbrev pub cluster : Client
cluster = record {
  World = World;
  Failure = String;
  is_not_found = λ e. str_eq e "NotFound";
  get_backup = λ k w. reply (got_backup k) (find (λ o. o.meta) k w.backups) w;
  get_restore = λ k w. reply (got_restore k) (find (λ o. o.meta) k w.restores) w;
  get_namespace = λ k w.
      reply (got_namespace k) (find (λ o. o.meta) (record k { namespace = "" }) w.namespaces) w;
  get_pvc = λ k w. reply (got_pvc k) (find (λ o. o.meta) k w.pvcs) w;
  get_snapshot = λ k w. reply (got_snapshot k) (find (λ o. o.meta) k w.snapshots) w;
  get_job = λ k w. reply (got_job k) (find (λ o. o.meta) k w.jobs) w;
  list_backups = λ n w.
      reply (listed_backups n) (listing w.broken (select (λ b. in_namespace n b.meta) w.backups)) w;
  list_child_backups = λ n p w.
      reply (listed_child_backups n p)
        (listing w.broken
          (select (λ b. str_eq b.spec.pvc_name p && str_eq b.meta.namespace n) w.backups))
        w;
  list_pvcs = λ n w.
      reply (listed_pvcs n) (listing w.broken (select (λ p. str_eq p.meta.namespace n) w.pvcs)) w;
  create_backup = λ o w. reply (created_backup o) (ok o) (record w { backups = o ∷ w.backups });
  create_pvc = λ o w. reply (created_pvc o) (ok o) (record w { pvcs = o ∷ w.pvcs });
  create_snapshot =
      λ o w. reply (created_snapshot o) (ok o) (record w { snapshots = o ∷ w.snapshots });
  create_job = λ o w. reply (created_job o) (ok o) (record w { jobs = o ∷ w.jobs });
  update_pvc = λ o w. reply (updated_pvc o) (ok o) (record w { pvcs = o ∷ w.pvcs });
  update_backup_status =
      λ o w. reply (updated_backup_status o) (ok o) (record w { backups = o ∷ w.backups });
  update_restore_status =
      λ o w. reply (updated_restore_status o) (ok o) (record w { restores = o ∷ w.restores });
  delete_backup = λ k w.
      reply (deleted_backup k) (ok tt) (record w { backups = delete (λ o. o.meta) k w.backups });
  delete_snapshot = λ k w.
      reply (deleted_snapshot k) (ok tt)
        (record w { snapshots = delete (λ o. o.meta) k w.snapshots });
  delete_job =
      λ k w. reply (deleted_job k) (ok tt) (record w { jobs = delete (λ o. o.meta) k w.jobs });
  delete_pvc =
      λ k w. reply (deleted_pvc k) (ok tt) (record w { pvcs = delete (λ o. o.meta) k w.pvcs });
  set_controller_reference = λ kind o m. ok (owner kind o ∷ []);
  now = λ w. (max_ℤ (pos 0) w.clock, w);
  clock_now = λ w. (w.clock, w);
  sleep = λ d w. record w { clock = w.clock +ℤ d };
  poll = λ interval timeout immediate condition w. poll_once condition w;
}

pub cluster-IsRecorded : IsRecorded cluster (λ w. w.log)
cluster-IsRecorded = record {
  get_backup-event = λ k w. refl;
  get_restore-event = λ k w. refl;
  get_namespace-event = λ k w. refl;
  get_pvc-event = λ k w. refl;
  get_snapshot-event = λ k w. refl;
  get_job-event = λ k w. refl;
  list_backups-event = λ k w. refl;
  list_child_backups-event = λ k l w. refl;
  list_pvcs-event = λ k w. refl;
  create_backup-event = λ x w. refl;
  create_pvc-event = λ x w. refl;
  create_snapshot-event = λ x w. refl;
  create_job-event = λ x w. refl;
  update_pvc-event = λ x w. refl;
  update_backup_status-event = λ x w. refl;
  update_restore_status-event = λ x w. refl;
  delete_backup-event = λ k w. refl;
  delete_snapshot-event = λ k w. refl;
  delete_job-event = λ k w. refl;
  delete_pvc-event = λ k w. refl;
  now-event = λ w. refl;
  clock_now-event = λ w. refl;
  sleep-event = λ d w. refl;
  poll-event = λ P interval timeout immediate condition keeps w h. keeps w h;
}

pub cluster_clock : (w : World) → pos 0 ≤ℤ (cluster.now w).0
cluster_clock w = ground arith

find-key_of :
    (k : NamespacedName) (xs : List PvcBackup) (b : PvcBackup)
    → find (λ o. o.meta) k xs ≡ ok b
    → key_of b.meta ≡ k
find-key_of k [] b h = cc
find-key_of k (a ∷ xs) b h =
    ground
      (arith, find-key_of k xs b, eq_iff a.meta.name k.name, eq_iff a.meta.namespace k.namespace)

-- A Get replies with a backup of the name that was asked for.
pub get_backup-key_of :
    (k : NamespacedName) (w : World) (b : PvcBackup)
    → (cluster.get_backup k w).0 ≡ ok b
    → key_of b.meta ≡ k
get_backup-key_of k w b h = find-key_of k w.backups b h
