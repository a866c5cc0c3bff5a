-- ===== src/Backup/Steps.antt =====
-- The steps of `Reconcile` for a PVCBackup that has not finished, in their order.
use backsnap.Base.{String, ◌-◌, ◌*◌, ◌%◌, ◌+◌, Bool, true, false, not, ◌&&◌, Option, none, some}
use backsnap.Base.{◌≡◌, ◌⊎◌, arith, [], elem, length, ltb, if◌then◌else◌}
use backsnap.Base.Int.{ℤ, pos, negsuc, ltb_ℤ, leb_ℤ}
use backsnap.Go.Time.{Time, Duration, is_zero, sub, round}
use backsnap.Go.Lo.{Lo}
use backsnap.Kube.{NamespacedName, Result, Quantity, Pvc, VolumeSnapshot, SnapshotStatus, Job}
use backsnap.Api.{PvcBackup}
use backsnap.Client.{Client, Reply, ok, err}
use backsnap.Client.Actions.{or_create, or_panic, or_wrap}
use backsnap.Exec.{pure, exit, stop, done, panicked, or_fail}
use backsnap.Exec.{◌>>=◌, ◌>>◌}
use backsnap.Settings.{requeue_after}
use backsnap.Backup.State.{State, Config, Action, call, sleep, forget, occupy}
use backsnap.Backup.Objects.{new_snapshot, new_snapshot_pvc, new_backup_job, owned}
use mathlib.Core.Option

-- An int64 product wraps.
wrap64 : ℤ → ℤ
wrap64 (pos n) =
    let r = n % 18446744073709551616 in
    if ltb r 9223372036854775808 then pos r else negsuc (18446744073709551615 - r)
wrap64 (negsuc n) =
    let r = n % 18446744073709551616 in
    if ltb r 9223372036854775808 then negsuc r else pos (18446744073709551615 - r)

-- `time.Duration(n) * time.Second`
unfoldable pub seconds : ℤ → Duration
unfolding wrap64
seconds (pos n) = wrap64 (pos (n * 1000000000))
seconds (negsuc n) = wrap64 (negsuc ((n + 1) * 1000000000 - 1))

-- The snapshot has a status that says that it is ready to use.
unfoldable pub is_ready : Option SnapshotStatus → Bool
is_ready none = false
is_ready (some status) = elim status.ready_to_use [ none ↦ false | some ready ↦ ready ]

-- `snapshot.Status.RestoreSize`
abbrev pub restore_size : VolumeSnapshot → Option Quantity
restore_size snapshot = Option.bind snapshot.status (λ status. status.restore_size)

-- `setBackupFinished`, at time `now`; `none` is the nil dereference of a missing start time.
unfoldable pub set_backup_finished : Time → String → PvcBackup → Option PvcBackup
set_backup_finished now result b = elim b.status.started_at [
  | none ↦ none
  | some started ↦ some (record b {
    status = record b.status {
      finished_at = some now;
      duration = some (round (sub now started) 1000000000);
      result = some result;
    };
  })
]

module _ (C : Client) where
  -- The condition of the poll: the update is seen on our end.
  abbrev seen_in : Reply C.Failure PvcBackup → Reply C.Failure Bool
  seen_in (ok b) = ok (not (is_zero b.status.finished_at))
  seen_in (err e) = err e

  unfoldable pub finish_seen : NamespacedName → C.World → Reply C.Failure Bool × C.World
  finish_seen req w = let (reply, w') = C.get_backup req w in (seen_in reply, w')

module _ (C : Client) (cfg : Config) where
  -- Take a place among the running backups, or wait for one.
  unfoldable pub admit : String → Action C Unit
  admit name s =
      let running = Option.get_or s.current_running_backups [] in
      if elem name running
      then occupy C name s
      else if ltb_ℤ (pos 0) cfg.max_running_backups
          && leb_ℤ cfg.max_running_backups (pos (length running))
      then (stop (done (requeue_after (pos 30000000000))), s)
      else occupy C name s

  -- A return of `admit` is the wait for a place.
  pub admit_cases :
      (name : String) (s : State C)
      → (admit name s ≡ (stop (done (requeue_after (pos 30000000000))), s))
        ⊎ (admit name s ≡ occupy C name s)
  unfolding admit
  admit_cases name s = ground arith

  -- `if backup.Status.StartedAt == nil { ... }`, from the start time.
  unfoldable pub start_if_unset : PvcBackup → Option Time → Action C PvcBackup
  start_if_unset b (some _) = pure b
  start_if_unset b none = do
    now ← call C C.now
    updated ←
        call C
          (C.update_backup_status (record b { status = record b.status { started_at = some now } }))
    or_fail updated

  unfoldable pub mark_started : PvcBackup → Action C PvcBackup
  unfolding start_if_unset
  mark_started b = start_if_unset b b.status.started_at

  -- Retrieve or create the VolumeSnapshot.
  unfoldable pub ensure_snapshot : NamespacedName → PvcBackup → Pvc → Action C VolumeSnapshot
  unfolding or_create
  ensure_snapshot req b pvc = do
    reply ← call C (C.get_snapshot req)
    or_create C reply do
      let new = new_snapshot cfg.backup_settings b pvc.meta.name
      owners ← or_fail (C.set_controller_reference "PVCBackup" b.meta new.meta)
      created ← call C (C.create_snapshot (record new { meta = owned new.meta owners }))
      or_fail created

  -- The new temporary PVC; a ready snapshot with no RestoreSize is a nil dereference.
  unfoldable pub create_snapshot_pvc : PvcBackup → VolumeSnapshot → Option Quantity → Action C Pvc
  create_snapshot_pvc b snapshot none = exit panicked
  create_snapshot_pvc b snapshot (some size) = do
    let new = new_snapshot_pvc cfg.backup_settings b snapshot.meta.name size
    owners ← or_fail (C.set_controller_reference "PVCBackup" b.meta new.meta)
    created ← call C (C.create_pvc (record new { meta = owned new.meta owners }))
    or_fail created

  -- Retrieve or create the snapshot PVC.
  unfoldable pub ensure_snapshot_pvc : NamespacedName → PvcBackup → VolumeSnapshot → Action C Pvc
  unfolding or_create create_snapshot_pvc
  ensure_snapshot_pvc req b snapshot = do
    reply ← call C (C.get_pvc req)
    or_create C reply (create_snapshot_pvc b snapshot (restore_size snapshot))

  unfoldable pub ensure_job : Lo → NamespacedName → PvcBackup → Pvc → Pvc → Action C Job
  unfolding or_create
  ensure_job lo req b pvc snapshot_pvc = do
    reply ← call C (C.get_job req)
    or_create C reply do
      let new = new_backup_job lo cfg.backup_settings b pvc snapshot_pvc.meta.name
      owners ← or_fail (C.set_controller_reference "PVCBackup" b.meta new.meta)
      created ← call C (C.create_job (record new { meta = owned new.meta owners }))
      or_fail created

  -- `setBackupFinished(&backup, "Succeeded")`
  unfoldable pub finished_backup : PvcBackup → Action C PvcBackup
  unfolding set_backup_finished or_panic
  finished_backup b = do now ← call C C.now; or_panic C (set_backup_finished now "Succeeded" b)

  -- The end of `Reconcile`, once the job has completed.
  unfoldable pub finish : NamespacedName → String → PvcBackup → Action C Result
  unfolding finished_backup finish_seen or_wrap or_panic
  finish req qualified_name b = do
    b' ← finished_backup b
    sleep C (seconds cfg.sleep_between_backups)
    updated ← call C (C.update_backup_status b')
    or_fail updated
    polled ← call C (C.poll (pos 100000000) (pos 2000000000) true (finish_seen C req))
    or_wrap C "failed to wait for PVCBackup Status to be updated" polled
    forget C qualified_name
    pure (requeue_after (pos 0))
