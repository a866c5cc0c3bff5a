-- ===== src/Backup/Panic/Free.antt =====
-- Which panics are left: the backup has a start time when it ends, and the set is never nil.
use backsnap.Base.{◌≡◌, ◌≢◌, refl, String, true, not, Option, none, some, List, not-eq-false, arith}
use backsnap.Go.Time.{Time, is_zero}
use backsnap.Go.Lo.{Lo}
use backsnap.Kube.{NamespacedName, Result, Pvc}
use backsnap.Api.{PvcBackup}
use backsnap.Client.{Client, Reply, ok, err}
use backsnap.Client.Actions.{or_panic}
use backsnap.Exec.{Step, exit_of, next, stop, panicked}
use backsnap.Exec.Ends.{
  Ends, Post, Ends-pure, Ends-exit, Ends-or_fail, Ends-if, Ends-when, Ends-bind, Ends-fact,
  Ends-weaken,
}
use backsnap.Backup.State.{Config, State, call}
use backsnap.Backup.Steps.{
  is_ready, start_if_unset, mark_started, ensure_job, set_backup_finished, finished_backup, finish,
}
use backsnap.Backup.Reconcile.{
  find_if_none, find_when_unset, or_forget, fetch_backup, reconcile_unfinished, reconcile_backup,
  reconcile,
}
use backsnap.Client.History.{Events, IsRecorded}
use backsnap.Backup.Panic.Snapshot.{
  SnapshotShown, UnsizedSeen, ensure_snapshot-Shown, ensure_snapshot_pvc-Allows,
}
use backsnap.Backup.Panic.Quiet.{
  KeepsStart, Allows, Known, Quiet, Quiet-call, Quiet-or_fail, Quiet-when, Quiet-done, Quiet-bind,
  quiet_rules, or_wrap-Quiet, or_create-Quiet, reconcile_finished-Quiet, admit-Quiet, find-Known,
}

set-started : (o : Option Time) (t : Time) → o ≡ some t → o ≢ none
set-started o t e = λ unset. cc

set_backup_finished-some :
    (now : Time) (result : String) (b : PvcBackup)
    → b.status.started_at ≢ none
    → set_backup_finished now result b ≢ none
unfolding set_backup_finished
set_backup_finished-some now result b started = ground arith

module _ (C : Client) (history : C.World → Events C) (R : IsRecorded C history)
    (keeps : KeepsStart C) (lo : Lo) (cfg : Config) (req : NamespacedName) where
  abbrev K : State C → Type 0
  K = UnsizedSeen C history req

  abbrev Started : PvcBackup → Type 0
  Started b = b.status.started_at ≢ none

  start_if_unset-Started :
      (b : PvcBackup) (o : Option Time)
      → b.status.started_at ≡ o
      → Ends (Allows K) (Known C) (λ b' s. Started b' × Known C s) (start_if_unset C cfg b o)
  unfolding start_if_unset call
  start_if_unset-Started b (some t) e = Ends-pure b (λ s known. (cc, known))
  start_if_unset-Started b none e = Ends-bind _ _ (Quiet-call C K _) λ now.
      Ends-bind {Mid = λ r s. ((y : PvcBackup) → r ≡ ok y → Started y) × Known C s} _ _
        (record { at = λ s known. (λ y q. set-started _ now (keeps _ s.world y q), known) })
        λ reply. Ends-or_fail reply (λ y q s p. (p.0 y q, p.1)) (λ e s p. tt)

  ensure_job-Quiet :
      (b : PvcBackup) (pvc snapshot_pvc : Pvc)
      → Quiet C K (ensure_job C cfg lo req b pvc snapshot_pvc)
  unfolding ensure_job
  ensure_job-Quiet b pvc snapshot_pvc = search (quiet_rules, or_create-Quiet) depth 20

  or_panic-Quiet : {A : Type 0} (o : Option A) → o ≢ none → Quiet C K (or_panic C o)
  unfolding or_panic
  or_panic-Quiet none h = elim (h refl) [ ]
  or_panic-Quiet (some a) h = search quiet_rules

  finished_backup-Quiet : (b : PvcBackup) → Started b → Quiet C K (finished_backup C cfg b)
  unfolding finished_backup
  finished_backup-Quiet b started =
      Quiet-bind C K _ _ (Quiet-call C K _)
        λ now. or_panic-Quiet _ (set_backup_finished-some now "Succeeded" b started)

  finish-Quiet : (name : String) (b : PvcBackup) → Started b → Quiet C K (finish C cfg req name b)
  unfolding finish
  finish-Quiet name b started =
      Quiet-bind C K _ _ (finished_backup-Quiet b started)
        λ b'. search (quiet_rules, or_wrap-Quiet) depth 30

  reconcile_unfinished-Quiet : (b : PvcBackup) → Quiet C K (reconcile_unfinished C lo cfg req b)
  unfolding reconcile_unfinished mark_started
  reconcile_unfinished-Quiet b = Quiet-bind C K _ _ (Quiet-call C K _) λ reply.
      Quiet-bind C K _ _ (Quiet-or_fail C K reply) λ pvc.
        Quiet-bind C K _ _ (admit-Quiet C K lo cfg _) λ _.
          Ends-bind _ _ (start_if_unset-Started b b.status.started_at refl) λ b'.
            Ends-fact λ started.
              Ends-bind _ _ (ensure_snapshot-Shown C history R cfg req b' pvc) λ v.
                Ends-bind
                  {Mid = λ _ s.
                    (is_ready v.status ≡ true) × (SnapshotShown C history req v s × Known C s)}
                  _ _
                  (Ends-when (not (is_ready v.status)) _ (λ _. Ends-exit _ (λ _ _. tt))
                    (λ q s p. (not-eq-false _ q, p)))
                  λ _. Ends-fact λ ready.
                    Ends-bind _ _ (ensure_snapshot_pvc-Allows C history R cfg req b' v ready)
                      λ snapshot_pvc.
                        Quiet-bind C K _ _ (ensure_job-Quiet b' pvc snapshot_pvc) λ job.
                          Ends-if (is_zero job.completion_time) _ _
                            (λ _. Ends-pure _ (λ s known. known)) (λ _. finish-Quiet _ b' started)

  or_forget-Quiet : (r : Reply C.Failure PvcBackup) → Quiet C K (or_forget C lo cfg req r)
  unfolding or_forget
  or_forget-Quiet (ok b) = search (quiet_rules)
  or_forget-Quiet (err e) = search (quiet_rules) depth 20

  reconcile_backup-Quiet : Quiet C K (reconcile_backup C lo cfg req)
  unfolding reconcile_backup fetch_backup
  reconcile_backup-Quiet =
      search (quiet_rules, or_forget-Quiet, reconcile_unfinished-Quiet, reconcile_finished-Quiet)
        depth 30

  find_if_none-Known :
      (o : Option (List String))
      → Ends
          (Allows K)
          (λ s. s.current_running_backups ≡ o)
          (λ _. Known C)
          (find_if_none C lo cfg o)
  unfolding find_if_none
  find_if_none-Known none = Ends-weaken (find-Known C K lo cfg) (λ s _. tt)
  find_if_none-Known (some rs) = Ends-pure tt (λ s e. (rs, e))

  find_when_unset-Known : Ends (Allows K) (λ s. Unit) (λ _. Known C) (find_when_unset C lo cfg)
  unfolding find_when_unset
  find_when_unset-Known = record {
    at = λ s _. (find_if_none-Known s.current_running_backups).at s refl;
  }

  exit_of-Allows :
      (r : Step C.Failure Result) (s : State C)
      → Post (λ _. Known C) (Allows K) (r, s)
      → Allows K (exit_of r) s
  exit_of-Allows (next r) s h = tt
  exit_of-Allows (stop e) s h = h

  reconcile-Allows :
      (s : State C) → Allows K (reconcile C lo cfg req s).0 (reconcile C lo cfg req s).1
  unfolding reconcile
  reconcile-Allows s = exit_of-Allows _ _ (
      (Ends-bind _ _ find_when_unset-Known λ _.
          Quiet-bind C K _ _ (Quiet-when C K _ _ (Quiet-done C K _)) λ _. reconcile_backup-Quiet).at
        s tt)

  -- In any world that records its requests, and where the API stores a PVCBackup with the start
  -- time that it is sent with, whatever else it replies: a reconcile that panics has done so on its
  -- latest two replies, that the temporary PVC does not exist, and, right before it, a snapshot that
  -- is ready to use and has no restore size. No other panic is possible, neither by a write to a nil
  -- map of running backups nor by a nil start time.
  pub panic-UnsizedSeen :
      (s : State C)
      → (reconcile C lo cfg req s).0 ≡ panicked
      → UnsizedSeen C history req (reconcile C lo cfg req s).1
  panic-UnsizedSeen s e = rw e at (reconcile-Allows s)
