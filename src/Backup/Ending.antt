-- ===== src/Backup/Ending.antt =====
-- The end of a backup whose Job has completed.
use backsnap.Base.{arith, ◌≡◌, refl, String, true, some, List, remove}
use backsnap.Base.Int.{pos}
use backsnap.Go.Time.{Time, sub, round}
use backsnap.Kube.{NamespacedName, Result}
use backsnap.Api.{PvcBackup}
use backsnap.Client.{Client, Reply, ok, err}
use backsnap.Client.Actions.{or_panic, or_wrap}
use backsnap.Exec.{Step, next, stop, failed, wrapped, ◌>>=◌}
use backsnap.Settings.{requeue_after}
use backsnap.Backup.State.{Config, State, call, sleep, forget}
use backsnap.Backup.Steps.{seconds, set_backup_finished, finished_backup, finish_seen, finish}

-- The backup as it is stored when it ends at time `now`, having started at `started`.
abbrev pub ended_at : Time → Time → PvcBackup → PvcBackup
ended_at now started b = record b {
  status = record b.status {
    finished_at = some now;
    duration = some (round (sub now started) 1000000000);
    result = some "Succeeded";
  };
}

set_backup_finished-eq :
    (now started : Time) (b : PvcBackup)
    → b.status.started_at ≡ some started
    → set_backup_finished now "Succeeded" b ≡ some (ended_at now started b)
unfolding set_backup_finished
set_backup_finished-eq now started b begun = ground arith

-- How `finish` ends, and the places after it, by the reply of the poll.
abbrev pub end_of : {F : Type 0} → Reply F Unit → Step F Result
end_of (ok _) = next (requeue_after (pos 0))
end_of (err e) = stop (failed (wrapped "failed to wait for PVCBackup Status to be updated" e))

abbrev pub places_after : {F : Type 0} → Reply F Unit → String → List String → List String
places_after (ok _) name running = remove name running
places_after (err _) name running = running

module _ (C : Client) (cfg : Config) (req : NamespacedName) (name : String) (b : PvcBackup)
    (s : State C) where
  -- The world after the sleep, and after the update.
  abbrev pub slept : C.World
  slept = C.sleep (seconds cfg.sleep_between_backups) (C.now s.world).1

  abbrev pub poll_seen : C.World → Reply C.Failure Unit × C.World
  poll_seen w = C.poll (pos 100000000) (pos 2000000000) true (finish_seen C req) w

  -- Where the backup has a start time and the update of its status succeeds: it was stored as
  -- successful with the time before the sleep, and its duration in whole seconds; if the poll then
  -- sees it, its place is free and the reconcile is requeued, and if the poll fails, the reconcile
  -- fails with that error and the place stays taken.
  pub finish_lem :
      (started : Time) (running : List String) (stored : PvcBackup) (polled : Reply C.Failure Unit)
      → b.status.started_at ≡ some started
      → s.current_running_backups ≡ some running
      → (C.update_backup_status (ended_at (C.now s.world).0 started b) slept).0 ≡ ok stored
      → (poll_seen (C.update_backup_status (ended_at (C.now s.world).0 started b) slept).1).0
        ≡ polled
      → finish C cfg req name b s ≡ (
        end_of polled,
        record {
          world =
              (poll_seen (C.update_backup_status (ended_at (C.now s.world).0 started b) slept).1).1;
          current_running_backups = some (places_after polled name running);
        },
      )
  unfolding finish finished_backup or_panic or_wrap call sleep forget ◌>>=◌
  finish_lem started running stored (ok seen) begun known updated polled =
      rw
        (
          set_backup_finished-eq (C.now s.world).0 started b begun,
          or_panic,
          updated,
          polled,
          or_wrap,
          known,
          forget,
        )
        refl
  finish_lem started running stored (err e) begun known updated polled =
      rw
        (
          set_backup_finished-eq (C.now s.world).0 started b begun,
          or_panic,
          updated,
          polled,
          or_wrap,
          known,
          forget,
        )
        refl
