-- ===== src/Backup/Progress/Run.antt =====
-- The steps of a backup on an API that works.
use backsnap.Base.{◌≡◌, refl, String, true, false, Option, none, some, List}
use backsnap.Base.{str_eq}
use backsnap.Go.Time.{is_zero}
use backsnap.Go.Lo.{Lo}
use backsnap.Kube.{key_of, NamespacedName, Pvc, VolumeSnapshot, Job, Quantity}
use backsnap.Api.{PvcBackup}
use backsnap.Client.{Client, err}
use backsnap.Client.Actions.{or_create}
use backsnap.Client.Server.{Objects, IsServer, Store, put}
use backsnap.Client.Machine.{Machine, At}
use backsnap.Client.Machine.Gets.{At-get_snapshot, At-get_pvc, At-get_job}
use backsnap.Client.Machine.Creates.{At-create_snapshot, At-create_pvc, At-create_job}
use backsnap.Exec.{Exec, Exit, next, ◌>>=◌}
use backsnap.Exec.Ends.{Ends, Ends-pure}
use backsnap.Backup.State.{Config, State, call}
use backsnap.Backup.Panic.Quiet.{Sized}
use backsnap.Backup.Objects.{new_snapshot, new_snapshot_pvc, new_backup_job}
use backsnap.Backup.Steps.{
  is_ready, ensure_snapshot, create_snapshot_pvc, restore_size, ensure_snapshot_pvc, ensure_job,
}

pub call-eq :
    (C : Client) (A : Type 0) (op : C.World → A × C.World) (s : State C)
    → call C op s ≡ (next (op s.world).0, record s { world = (op s.world).1 })
unfolding call
call-eq C A op s = refl

-- The states in which the running backups are `rs`.
abbrev pub machine : (C : Client) → List String → Machine C
machine C rs = record {
  State = State C;
  world = λ s. s.world;
  move = λ s w. record s { world = w };
  run = λ A op. call C op;
  run-eq = call-eq C;
  Fixed = λ s. s.current_running_backups ≡ some rs;
  world-move = λ s w. refl;
  Fixed-move = λ s w h. h;
}

or_create_missing :
    (C : Client) (S0 A : Type 0) (missing : C.Failure) (create : Exec C.Failure S0 A)
    → C.is_not_found missing ≡ true
    → or_create C (err missing) create ≡ create
unfolding or_create
or_create_missing C S0 A missing create e = rw e refl

-- The PVCs with `p` put at `k`, if nothing was there.
abbrev pub keep_or_put : {A : Type 0} → NamespacedName → Option A → A → Store A → Store A
keep_or_put k none p f = put k (some p) f
keep_or_put k (some _) p f = f

module _ (C : Client) (objects : C.World → Objects) (S : IsServer C objects) (cfg : Config)
    (lo : Lo) (rs : List String) (b : PvcBackup) where
  abbrev pub M : Machine C
  M = machine C rs

  abbrev pub k : NamespacedName
  k = key_of b.meta

  abbrev Good :
      {A : Type 0}
      → (Exit C.Failure → State C → Type 0)
      → Objects
      → (A → State C → Type 0)
      → Exec C.Failure (State C) A
      → Type 0
  Good E o Q m = Ends E (At C objects M o) Q m

  -- Objects where the backup is stored, and its PVC is there.
  pub record Facts (pvc : Pvc) (o : Objects) : Type 0 where
    pub stored : o.backups k ≡ some b
    pub source : o.pvcs (record k { name = b.spec.pvc_name }) ≡ some pvc
    pub sized : (v : VolumeSnapshot) → o.snapshots k ≡ some v → Sized v
    -- The temporary PVC is another than the one that is backed up.
    pub apart : str_eq b.meta.name b.spec.pvc_name ≡ false

  module _ {E : Exit C.Failure → State C → Type 0} {o : Objects} where
    -- A snapshot that is there is taken as it is; else one is made, which is not ready yet.
    pub ensure_snapshot_old :
        (pvc : Pvc) (v : VolumeSnapshot)
        → o.snapshots k ≡ some v
        → Good E o (λ v' s. (v' ≡ v) × At C objects M o s) (ensure_snapshot C cfg k b pvc)
    unfolding ensure_snapshot or_create
    ensure_snapshot_old pvc v there =
        At-get_snapshot C objects S M k (some v) _ there (Ends-pure v (λ s h. (refl, h)))

    pub ensure_snapshot_new :
        (pvc : Pvc)
        → o.snapshots k ≡ none
        → Good E o
            (λ v s.
              (is_ready v.status ≡ false)
              × At C objects M (record o { snapshots = put k (some v) o.snapshots }) s)
            (ensure_snapshot C cfg k b pvc)
    unfolding ensure_snapshot new_snapshot is_ready ◌>>=◌
    ensure_snapshot_new pvc absent = At-get_snapshot C objects S M k none _ absent (
        rw (or_create_missing C (State C) VolumeSnapshot S.missing _ S.missing_lem) (
          rw
            (S.set_controller_reference-ok "PVCBackup" b.meta
              (new_snapshot cfg.backup_settings b pvc.meta.name).meta refl refl)
            (At-create_snapshot C objects S M _ _ absent (λ w. Ends-pure _ (λ s h. (refl, h))))))

    -- The temporary PVC, by whether it is there.
    pub ensure_snapshot_pvc_lem :
        (v : VolumeSnapshot) (q : Quantity)
        → restore_size v ≡ some q
        → (there : Option Pvc) → o.pvcs k ≡ there
        → Good E o
            (λ p s. At C objects M (record o { pvcs = keep_or_put k there p o.pvcs }) s)
            (ensure_snapshot_pvc C cfg k b v)
    unfolding ensure_snapshot_pvc create_snapshot_pvc new_snapshot_pvc or_create ◌>>=◌
    ensure_snapshot_pvc_lem v q size (some p) e =
        At-get_pvc C objects S M k (some p) _ e (Ends-pure p (λ s h. h))
    ensure_snapshot_pvc_lem v q size none e = At-get_pvc C objects S M k none _ e (
        rw (S.missing_lem, size)
          (rw
            (S.set_controller_reference-ok "PVCBackup" b.meta
              (new_snapshot_pvc cfg.backup_settings b v.meta.name q).meta refl refl)
            (At-create_pvc C objects S M _ _ e (λ w. Ends-pure _ (λ s h. h)))))

    -- A Job that is there is taken as it is; else one is made, which has not completed yet.
    pub ensure_job_old :
        (pvc p : Pvc) (j : Job)
        → o.jobs k ≡ some j
        → Good E o (λ j' s. (j' ≡ j) × At C objects M o s) (ensure_job C cfg lo k b pvc p)
    unfolding ensure_job or_create
    ensure_job_old pvc p j there =
        At-get_job C objects S M k (some j) _ there (Ends-pure j (λ s h. (refl, h)))

    pub ensure_job_new :
        (pvc p : Pvc)
        → o.jobs k ≡ none
        → Good E o
            (λ j s.
              (is_zero j.completion_time ≡ true)
              × At C objects M (record o { jobs = put k (some j) o.jobs }) s)
            (ensure_job C cfg lo k b pvc p)
    unfolding ensure_job new_backup_job ◌>>=◌
    ensure_job_new pvc p absent = At-get_job C objects S M k none _ absent (
        rw (or_create_missing C (State C) Job S.missing _ S.missing_lem) (
          rw
            (S.set_controller_reference-ok "PVCBackup" b.meta
              (new_backup_job lo cfg.backup_settings b pvc p.meta.name).meta refl refl)
            (At-create_job C objects S M _ _ absent (λ w. Ends-pure _ (λ s h. (refl, h))))))
