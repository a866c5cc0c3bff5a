-- ===== src/Tests/Store.antt =====
-- An API that works, as a client: its world is the objects.
use backsnap.Base.{◌≡◌, ◌≢◌, refl, ap, String, Bool, true, Option, none, some, [], ◌∷◌}
use backsnap.Base.{str_eq, if◌then◌else◌}
use backsnap.Base.Int.{pos}
use backsnap.Kube.{key_of, OwnerReference, ObjectMeta}
use backsnap.Client.{Client, Reply, ok, err}
use backsnap.Client.Server.{Objects, IsServer, put, found, deleted}

abbrev owner : String → ObjectMeta → OwnerReference
owner kind m = record {
  api_version = "v1";
  kind = kind;
  name = m.name;
  uid = m.uid;
  controller = true;
}

-- Create stores the object, unless one is there.
abbrev create : {A : Type 0} → Option A → A → Objects → Objects → Reply String A × Objects
create none x o o' = (ok x, o')
create (some _) x o o' = (err "AlreadyExists", o)

-- Update stores the object, if one is there.
abbrev update :
    {A : Type 0} → Option A → (A → A) → (A → Objects) → Objects → Reply String A × Objects
update none new to o = (err "NotFound", o)
update (some old) new to o = (ok (new old), to (new old))

abbrev outcome : Reply String Bool → Reply String Unit
outcome (err e) = err e
outcome (ok seen) = if seen then ok tt else err "Timeout"

-- A poll that looks once.
abbrev poll_once : (Objects → Reply String Bool × Objects) → Objects → Reply String Unit × Objects
poll_once condition w = let (r, w') = condition w in (outcome r, w')

abbrev pub store : Client
store = record {
  World = Objects;
  Failure = String;
  is_not_found = λ e. str_eq e "NotFound";
  get_backup = λ k w. (found "NotFound" (w.backups k), w);
  get_restore = λ k w. (found "NotFound" (w.restores k), w);
  get_namespace = λ k w. (found "NotFound" (w.namespaces k.name), w);
  get_pvc = λ k w. (found "NotFound" (w.pvcs k), w);
  get_snapshot = λ k w. (found "NotFound" (w.snapshots k), w);
  get_job = λ k w. (found "NotFound" (w.jobs k), w);
  list_backups = λ n w. (ok [], w);
  list_child_backups = λ n p w. (ok [], w);
  list_pvcs = λ n w. (ok [], w);
  create_backup = λ x w.
      create (w.backups (key_of x.meta)) x w
        (record w { backups = put (key_of x.meta) (some x) w.backups });
  create_pvc = λ x w.
      create (w.pvcs (key_of x.meta)) x w (record w { pvcs = put (key_of x.meta) (some x) w.pvcs });
  create_snapshot = λ x w.
      create (w.snapshots (key_of x.meta)) x w
        (record w { snapshots = put (key_of x.meta) (some x) w.snapshots });
  create_job = λ x w.
      create (w.jobs (key_of x.meta)) x w (record w { jobs = put (key_of x.meta) (some x) w.jobs });
  update_pvc = λ x w.
      update (w.pvcs (key_of x.meta)) (λ _. x)
        (λ y. record w { pvcs = put (key_of x.meta) (some y) w.pvcs }) w;
  update_backup_status = λ x w.
      update (w.backups (key_of x.meta)) (λ old. record old { status = x.status })
        (λ y. record w { backups = put (key_of x.meta) (some y) w.backups }) w;
  update_restore_status = λ x w.
      update (w.restores (key_of x.meta)) (λ old. record old { status = x.status })
        (λ y. record w { restores = put (key_of x.meta) (some y) w.restores }) w;
  delete_backup =
      λ k w. (deleted "NotFound" (w.backups k), record w { backups = put k none w.backups });
  delete_snapshot =
      λ k w. (deleted "NotFound" (w.snapshots k), record w { snapshots = put k none w.snapshots });
  delete_job = λ k w. (deleted "NotFound" (w.jobs k), record w { jobs = put k none w.jobs });
  delete_pvc = λ k w. (deleted "NotFound" (w.pvcs k), record w { pvcs = put k none w.pvcs });
  set_controller_reference = λ kind o m. ok (owner kind o ∷ []);
  now = λ w. (pos 18000000000000, w);
  clock_now = λ w. (pos 18000000000000, w);
  sleep = λ d w. w;
  poll = λ interval timeout immediate condition w. poll_once condition w;
}

update_there :
    {A : Type 0} (o : Option A) (x : A) (to : A → Objects) (w : Objects)
    → o ≢ none
    → update o (λ _. x) to w ≡ (ok x, to x)
update_there none x to w h = absurd (h refl)
update_there (some _) x to w h = refl

pub store-IsServer : IsServer store (λ w. w)
store-IsServer = record {
  missing = "NotFound";
  missing_lem = refl;
  assigned = λ w m. m;
  assigned-key = λ w m. refl;
  assigned-annotations = λ w m. refl;
  get_backup-Answers = λ k w. (refl, refl);
  get_restore-Answers = λ k w. (refl, refl);
  get_pvc-Answers = λ k w. (refl, refl);
  get_snapshot-Answers = λ k w. (refl, refl);
  get_job-Answers = λ k w. (refl, refl);
  get_namespace-Answers = λ k w. (refl, refl);
  create_backup-Answers = λ x w h. rw h (refl, refl);
  create_pvc-Answers = λ x w h. rw h (refl, refl);
  create_snapshot-Answers = λ x w h. rw h (refl, refl);
  create_job-Answers = λ x w h. rw h (refl, refl);
  update_pvc-Answers = λ x w h.
      let e =
        update_there (w.pvcs (key_of x.meta)) x
          (λ y. record w { pvcs = put (key_of x.meta) (some y) w.pvcs }) w h in
      (ap (λ z. z.0) e, ap (λ z. z.1) e);
  update_backup_status-Answers = λ x old w h. rw h (refl, refl);
  update_restore_status-Answers = λ x old w h. rw h (refl, refl);
  delete_pvc-Answers = λ k w. (refl, refl);
  delete_snapshot-Answers = λ k w. (refl, refl);
  delete_job-Answers = λ k w. (refl, refl);
  owner = owner;
  set_controller_reference-ok = λ kind o m e f. refl;
  now-objects = λ w. refl;
  now-nonzero = λ w. refl;
  clock_now-objects = λ w. refl;
  sleep-objects = λ d w. refl;
  poll-at_once = λ interval timeout condition w h. ap (λ r. (outcome r, (condition w).1)) h;
}
