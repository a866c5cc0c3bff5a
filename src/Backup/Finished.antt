-- ===== src/Backup/Finished.antt =====
-- The part of `Reconcile` for a PVCBackup that has finished: clean up, and delete it after its TTL.
use backsnap.Base.{String, Bool, false, not, ◌&&◌, Option, none, some, List, any}
use backsnap.Base.{str_eq, if◌then◌else◌}
use backsnap.Base.Int.{pos, leb_ℤ, eq_ℤ}
use backsnap.Go.Time.{Time, Duration, hour, after, add, sub}
use backsnap.Kube.{Result}
use backsnap.Api.{PvcBackup}
use backsnap.Client.{Client}
use backsnap.Client.Actions.{or_absent}
use backsnap.Exec.{pure, or_fail, empty_result, ◌>>=◌, ◌>>◌}
use backsnap.Settings.{requeue_after}
use backsnap.Backup.State.{Action, call, key_of}

-- `Status.Result` is set, and to "Succeeded".
unfoldable pub succeeded : Option String → Bool
succeeded none = false
succeeded (some result) = str_eq result "Succeeded"

abbrev pub finished_after : Option Time → Time → Bool
finished_after none t = false
finished_after (some u) t = after u t

-- `hasOlderSiblings`: a backup of the same PVC that finished after time `t`.
unfoldable pub has_older_siblings : PvcBackup → Time → List PvcBackup → Bool
has_older_siblings b t siblings =
    any
      (λ sibling.
        str_eq sibling.spec.pvc_name b.spec.pvc_name && finished_after sibling.status.finished_at t)
      siblings

module _ (C : Client) where
  -- The TTL has expired: delete the backup, unless it is the last to finish.
  unfoldable pub expire : PvcBackup → Time → Action C Result
  expire b t = do
    reply ← call C (C.list_backups (some b.meta.namespace))
    siblings ← or_fail reply
    if not (has_older_siblings b t siblings)
        then pure (requeue_after (if eq_ℤ b.spec.ttl (pos 0) then hour else b.spec.ttl))
        else (do
          deleted ← call C (C.delete_backup (key_of b.meta))
          or_fail deleted
          pure empty_result)

  unfoldable pub clean_up : PvcBackup → Duration → Action C Result
  unfolding or_absent
  clean_up b time_until_deletion = do
    snapshot ← call C (C.delete_snapshot (key_of b.meta))
    or_absent C snapshot
    job ← call C (C.delete_job (key_of b.meta))
    or_absent C job
    pvc ← call C (C.delete_pvc (key_of b.meta))
    or_absent C pvc
    pure (requeue_after time_until_deletion)

  -- `t` is `Status.FinishedAt`.
  unfoldable pub reconcile_finished : PvcBackup → Time → Action C Result
  reconcile_finished b t = if not (succeeded b.status.result) then pure empty_result else do
    now ← call C C.clock_now
    let time_until_deletion = sub (add t b.spec.ttl) now
    if leb_ℤ time_until_deletion (pos 0) then expire b t else clean_up b time_until_deletion
