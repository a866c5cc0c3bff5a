-- ===== src/Backup/Panic/Snapshot.antt =====
-- The snapshot and the temporary PVC: where a missing restore size is dereferenced.
use backsnap.Base.{rewrite_cons, ◌≡◌, refl, ap, true, Option, none, some, ◌∷◌, inl, inr}
use backsnap.Kube.{NamespacedName, Pvc, VolumeSnapshot, Quantity}
use backsnap.Api.{PvcBackup}
use backsnap.Client.{Client, Reply, ok, err}
use backsnap.Client.History.{Event, Events, IsRecorded, got_pvc, got_snapshot, created_snapshot}
use backsnap.Client.Actions.{or_create}
use backsnap.Exec.{Exec}
use backsnap.Exec.Ends.{Ends, Ends-pure, Ends-exit, Ends-or_fail, Ends-if, Ends-bind, Ends-weaken}
use backsnap.Backup.State.{Config, State, call}
use backsnap.Backup.Steps.{
  is_ready, ensure_snapshot, create_snapshot_pvc, restore_size, ensure_snapshot_pvc,
}
use backsnap.Backup.Rules.{SnapshotIn}
use backsnap.Backup.Panic.Quiet.{Allows, Known, Quiet-or_fail, quiet_rules}

module _ (C : Client) (history : C.World → Events C) (req : NamespacedName) where
  -- The latest reply shows the snapshot.
  abbrev pub SnapshotShown : VolumeSnapshot → State C → Type 0
  SnapshotShown v s =
      (x : Event C.Failure) × (h : Events C) × (history s.world ≡ x ∷ h) × SnapshotIn req v x

  -- The latest reply is that the temporary PVC does not exist, and the one before it shows the
  -- snapshot.
  abbrev pub PvcMissing : VolumeSnapshot → C.Failure → State C → Type 0
  PvcMissing v e s =
      (x : Event C.Failure) × (h : Events C) × (history s.world ≡ got_pvc req (err e) ∷ x ∷ h)
      × SnapshotIn req v x

  -- The latest two replies show a snapshot that is ready to use and has no restore size, and that
  -- the temporary PVC does not exist.
  abbrev pub UnsizedSeen : State C → Type 0
  UnsizedSeen s =
      (v : VolumeSnapshot) × (e : C.Failure) × PvcMissing v e s
      × (C.is_not_found e ≡ true)
      × (is_ready v.status ≡ true)
      × (restore_size v ≡ none)

module _ (C : Client) (history : C.World → Events C) (R : IsRecorded C history) (cfg : Config)
    (req : NamespacedName) where
  abbrev K : State C → Type 0
  K = UnsizedSeen C history req

  -- A reply that shows the snapshot, if it is no error.
  abbrev Offers : Reply C.Failure VolumeSnapshot → State C → Type 0
  Offers r s = ((v : VolumeSnapshot) → r ≡ ok v → SnapshotShown C history req v s) × Known C s

  Shown-reply :
      (r : Reply C.Failure VolumeSnapshot) (create : Exec C.Failure (State C) VolumeSnapshot)
      → Ends (Allows K) (Known C) (λ v s. SnapshotShown C history req v s × Known C s) create
      → Ends
          (Allows K)
          (Offers r)
          (λ v s. SnapshotShown C history req v s × Known C s)
          (or_create C r create)
  unfolding or_create
  Shown-reply (ok v) create k = Ends-pure v (λ s p. (p.0 v refl, p.1))
  Shown-reply (err e) create k =
      Ends-if (C.is_not_found e) _ _ (λ _. Ends-weaken k (λ s p. p.1))
        (λ _. Ends-exit _ (λ _ _. tt))

  create_snapshot-Offers :
      (x : VolumeSnapshot) → Ends (Allows K) (Known C) Offers (call C (C.create_snapshot x))
  unfolding call
  create_snapshot-Offers x = record {
    at = λ s known. (
      λ v q. (_, _, R.create_snapshot-event x s.world, inr (x, ap (created_snapshot x) q)),
      known,
    );
  }

  pub ensure_snapshot-Shown :
      (b : PvcBackup) (pvc : Pvc)
      → Ends
          (Allows K)
          (Known C)
          (λ v s. SnapshotShown C history req v s × Known C s)
          (ensure_snapshot C cfg req b pvc)
  unfolding ensure_snapshot call
  ensure_snapshot-Shown b pvc =
      Ends-bind {Mid = Offers} _ _
        (record {
          at = λ s known. (
            λ v q. (_, _, R.get_snapshot-event req s.world, inl (ap (got_snapshot req) q)),
            known,
          );
        })
        λ reply. Shown-reply reply _ (
          Ends-bind _ _ (Quiet-or_fail C K _) λ owners.
            Ends-bind _ _ (create_snapshot-Offers _)
              λ created. Ends-or_fail created (λ v q s p. (p.0 v q, p.1)) (λ e s p. tt))

  -- The only panic: the snapshot is ready, and has no restore size.
  create_snapshot_pvc-Allows :
      (b : PvcBackup) (v : VolumeSnapshot) (e : C.Failure) (size : Option Quantity)
      → C.is_not_found e ≡ true
      → is_ready v.status ≡ true
      → restore_size v ≡ size
      → Ends
          (Allows K)
          (λ s. PvcMissing C history req v e s × Known C s)
          (λ _. Known C)
          (create_snapshot_pvc C cfg b v size)
  unfolding create_snapshot_pvc
  create_snapshot_pvc-Allows b v e none gone ready q =
      Ends-exit _ (λ s p. (v, e, p.0, gone, ready, q))
  create_snapshot_pvc-Allows b v e (some size) gone ready q =
      Ends-weaken (search (quiet_rules) depth 20) (λ s p. p.1)

  -- A reply that the temporary PVC is missing, if it is an error.
  abbrev Misses : VolumeSnapshot → Reply C.Failure Pvc → State C → Type 0
  Misses v r s = ((e : C.Failure) → r ≡ err e → PvcMissing C history req v e s) × Known C s

  Missing-reply :
      (b : PvcBackup) (v : VolumeSnapshot) (r : Reply C.Failure Pvc)
      → is_ready v.status ≡ true
      → Ends
          (Allows K)
          (Misses v r)
          (λ _. Known C)
          (or_create C r (create_snapshot_pvc C cfg b v (restore_size v)))
  unfolding or_create
  Missing-reply b v (ok pvc) ready = Ends-pure pvc (λ s p. p.1)
  Missing-reply b v (err e) ready =
      Ends-if (C.is_not_found e) _ _
        (λ gone.
          Ends-weaken (create_snapshot_pvc-Allows b v e (restore_size v) gone ready refl)
            (λ s p. (p.0 e refl, p.1)))
        (λ _. Ends-exit _ (λ _ _. tt))

  pub ensure_snapshot_pvc-Allows :
      (b : PvcBackup) (v : VolumeSnapshot)
      → is_ready v.status ≡ true
      → Ends
          (Allows K)
          (λ s. SnapshotShown C history req v s × Known C s)
          (λ _. Known C)
          (ensure_snapshot_pvc C cfg req b v)
  unfolding ensure_snapshot_pvc call
  ensure_snapshot_pvc-Allows b v ready =
      Ends-bind {Mid = Misses v} _ _
        (record {
          at = λ s p. (
            λ e q. (
              p.0.0,
              p.0.1,
              rewrite_cons (R.get_pvc-event req s.world) (ap (got_pvc req) q) p.0.2,
              p.0.3,
            ),
            p.1,
          );
        })
        λ reply. Missing-reply b v reply ready
