-- ===== src/Backup/Pace.antt =====
-- How soon the reconciler of PVCBackups asks to be called again.
use backsnap.Exec.{done}
use backsnap.Base.{◌≡◌, String, Option, none, some, List, [], ◌∷◌, inl, inr, Option-cases}
use backsnap.Go.Time.{Time, Duration}
use backsnap.Go.Lo.{Lo}
use backsnap.Kube.{NamespacedName, Result, Pvc, VolumeSnapshot, Quantity}
use backsnap.Api.{PvcBackup}
use backsnap.Client.{Client, Reply, ok, err}
use backsnap.Exec.Paced.{
  IsPaced, IsSlow, Paces, Stops, Paced-exit_of, done-IsSlow, paced_rules, Paces-if, Paces-bind,
  Stops-when, Stops-or_fail, Paces-empty, requeue_after-IsSlow,
}
use backsnap.Client.Pace.{or_absent-Stops, or_create-Stops, or_wrap-Stops, or_panic-Stops}
use backsnap.Backup.State.{Config, State, call, sleep, forget, occupy, backup_is_running}
use backsnap.Backup.Running.{find_current_running_backups, mark, mark_included, find_in}
use backsnap.Backup.Finished.{expire, clean_up, reconcile_finished}
use backsnap.Backup.Steps.{
  admit, admit_cases, start_if_unset, mark_started, ensure_snapshot, create_snapshot_pvc,
  ensure_snapshot_pvc, ensure_job, finished_backup, finish,
}
use backsnap.Backup.Reconcile.{
  find_if_none, find_when_unset, or_forget, fetch_backup, reconcile_unfinished, reconcile_backup,
  reconcile,
}

module _ (C : Client) where
  call-Stops : {A : Type 0} (op : C.World → A × C.World) → Stops (call C op)
  unfolding call
  call-Stops op = record { at = λ s. tt }

  sleep-Stops : (d : Duration) → Stops (sleep C d)
  unfolding sleep
  sleep-Stops d = record { at = λ s. tt }

  forget-Stops : (name : String) → Stops (forget C name)
  unfolding forget
  forget-Stops name = record {
    at = λ s. elim (Option-cases s.current_running_backups) [
      | inl unset ↦ rw (unset, forget) tt
      | inr (rs, known) ↦ rw (known, forget) tt
    ];
  }

  occupy-Stops : (name : String) → Stops (occupy C name)
  unfolding occupy
  occupy-Stops name = record {
    at = λ s. elim (Option-cases s.current_running_backups) [
      | inl unset ↦ rw (unset, occupy) tt
      | inr (rs, known) ↦ rw (known, occupy) tt
    ];
  }

  ruleset backup_rules = (
    paced_rules, call-Stops, sleep-Stops, forget-Stops, occupy-Stops, or_absent-Stops,
    or_wrap-Stops, or_panic-Stops, or_create-Stops,
  )

  reconcile_finished-Paces : (b : PvcBackup) (t : Time) → Paces IsSlow (reconcile_finished C b t)
  unfolding reconcile_finished expire clean_up
  reconcile_finished-Paces b t = search (backup_rules) depth 40

module _ (C : Client) (lo : Lo) (cfg : Config) where
  mark-Stops : (bs : List PvcBackup) → Stops (mark C lo cfg bs)
  unfolding mark
  mark-Stops [] = search backup_rules
  mark-Stops (b ∷ bs) =
      Paces-if (backup_is_running b) _ _ (Paces-bind _ _ (occupy-Stops C _) λ _. mark-Stops bs)
        (mark-Stops bs)

  mark_included-Stops : (bs : List PvcBackup) → Stops (mark_included C lo cfg bs)
  unfolding mark_included
  mark_included-Stops [] = search backup_rules
  mark_included-Stops (b ∷ bs) =
      Paces-if (backup_is_running b) _ _
        (Paces-if (lo.contains cfg.exclude_namespaces b.meta.namespace) _ _ (mark_included-Stops bs)
          (Paces-bind _ _ (occupy-Stops C _) λ _. mark_included-Stops bs))
        (mark_included-Stops bs)

  find_in-Stops : (ns : List String) → Stops (find_in C lo cfg ns)
  unfolding find_in
  find_in-Stops [] = search backup_rules
  find_in-Stops (n ∷ ns) = Paces-if (lo.contains cfg.exclude_namespaces n) _ _ (find_in-Stops ns) (
      Paces-bind _ _ (call-Stops C _) λ reply.
        Paces-bind _ _ (Stops-or_fail reply)
          λ backups. Paces-bind _ _ (mark-Stops backups) λ _. find_in-Stops ns)

  find_if_none-Stops : (o : Option (List String)) → Stops (find_if_none C lo cfg o)
  unfolding find_if_none find_current_running_backups
  find_if_none-Stops none =
      Paces-bind _ _ (record { at = λ s. tt })
        λ _. search (backup_rules, mark_included-Stops, find_in-Stops) depth 20
  find_if_none-Stops (some _) = search backup_rules

  find_when_unset-Stops : Stops (find_when_unset C lo cfg)
  unfolding find_when_unset
  find_when_unset-Stops = record { at = λ s. (find_if_none-Stops s.current_running_backups).at s }

  admit-Stops : (name : String) → Stops (admit C cfg name)
  admit-Stops name = record {
    at = λ s. elim (admit_cases C cfg name s) [
      | inl waits ↦ rw waits (requeue_after-IsSlow _)
      | inr taken ↦ rw taken ((occupy-Stops C name).at s)
    ];
  }

  start_if_unset-Stops : (b : PvcBackup) (o : Option Time) → Stops (start_if_unset C cfg b o)
  unfolding start_if_unset
  start_if_unset-Stops b (some _) = search backup_rules
  start_if_unset-Stops b none = search backup_rules depth 20

  ensure_snapshot-Stops :
      (req : NamespacedName) (b : PvcBackup) (pvc : Pvc) → Stops (ensure_snapshot C cfg req b pvc)
  unfolding ensure_snapshot
  ensure_snapshot-Stops req b pvc = search backup_rules depth 20

  create_snapshot_pvc-Stops :
      (b : PvcBackup) (v : VolumeSnapshot) (size : Option Quantity)
      → Stops (create_snapshot_pvc C cfg b v size)
  unfolding create_snapshot_pvc
  create_snapshot_pvc-Stops b v none = search backup_rules
  create_snapshot_pvc-Stops b v (some size) = search backup_rules depth 20

  ensure_snapshot_pvc-Stops :
      (req : NamespacedName) (b : PvcBackup) (v : VolumeSnapshot)
      → Stops (ensure_snapshot_pvc C cfg req b v)
  unfolding ensure_snapshot_pvc
  ensure_snapshot_pvc-Stops req b v = search (backup_rules, create_snapshot_pvc-Stops) depth 20

  ensure_job-Stops :
      (req : NamespacedName) (b : PvcBackup) (pvc snapshot_pvc : Pvc)
      → Stops (ensure_job C cfg lo req b pvc snapshot_pvc)
  unfolding ensure_job
  ensure_job-Stops req b pvc snapshot_pvc = search backup_rules depth 20

  finish-Paces :
      (req : NamespacedName) (name : String) (b : PvcBackup)
      → Paces IsSlow (finish C cfg req name b)
  unfolding finish finished_backup
  finish-Paces req name b = search backup_rules depth 30

  reconcile_unfinished-Paces :
      (req : NamespacedName) (b : PvcBackup) → Paces IsSlow (reconcile_unfinished C lo cfg req b)
  unfolding reconcile_unfinished mark_started
  reconcile_unfinished-Paces req b =
      search
        (
          backup_rules, admit-Stops, start_if_unset-Stops, ensure_snapshot-Stops,
          ensure_snapshot_pvc-Stops, ensure_job-Stops, finish-Paces,
        )
        depth 40

  or_forget-Stops :
      (req : NamespacedName) (r : Reply C.Failure PvcBackup) → Stops (or_forget C lo cfg req r)
  unfolding or_forget
  or_forget-Stops req (ok _) = search backup_rules
  or_forget-Stops req (err _) = search backup_rules depth 20

  reconcile_backup-Paces : (req : NamespacedName) → Paces IsSlow (reconcile_backup C lo cfg req)
  unfolding reconcile_backup fetch_backup
  reconcile_backup-Paces req =
      search (backup_rules, or_forget-Stops, reconcile_finished-Paces, reconcile_unfinished-Paces)
        depth 30

  reconcile-IsPaced : (req : NamespacedName) (s : State C) → IsPaced (reconcile C lo cfg req s).0
  unfolding reconcile
  reconcile-IsPaced req s = Paced-exit_of _ (
      (Paces-bind _ _ find_when_unset-Stops
          λ _. Paces-bind _ _ (Stops-when _ _ Paces-empty) λ _. reconcile_backup-Paces req).at
        s)

  -- A reconcile of a PVCBackup that returns a result and no error asks to be called again either
  -- not at all or after at least a second, also when its time to live is negative or its deletion
  -- is overdue.
  pub backup-IsSlow :
      (req : NamespacedName) (s : State C) (r : Result)
      → (reconcile C lo cfg req s).0 ≡ done r
      → IsSlow r
  backup-IsSlow req s r e = done-IsSlow _ r (reconcile-IsPaced req s) e
