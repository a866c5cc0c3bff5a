-- ===== src/Automatic/Ignored.antt =====
-- How the creator of backups treats PVCs that the other reconcilers make: the temporary PVC of a
-- backup, and the PVC of a restore that has not finished.
use backsnap.Base.{◌≡◌, String, true, some, ◌⊎◌}
use backsnap.Base.{inl, inr, arith, eq_iff}
use backsnap.Base.Dict.{Dict, lookup, lookup-insert}
use backsnap.Go.Lo.{Lo}
use backsnap.Kube.{NamespacedName, Namespace, Pvc}
use backsnap.Api.{PvcBackup, PvcRestore}
use backsnap.Client.{Client, ok}
use backsnap.Client.Actions.{call, or_gone}
use backsnap.Exec.{done, empty_result, ◌>>=◌}
use backsnap.Settings.{backup_schedule_annotation, currently_restoring_annotation}
use backsnap.Backup.Objects.{snapshot_pvc_annotations}
use backsnap.Restore.Objects.{restoring_annotations}
use backsnap.Automatic.Schedule.{Cron, Float, schedule_of}
use backsnap.Automatic.Requests.{AutomaticConfig}
use backsnap.Automatic.Reconcile.{is_some, reconcile}

-- The annotations of a PVC that a backup or a restore has just made.
abbrev pub IsTemporary : Dict String → Type 0
IsTemporary annotations =
    ((b : PvcBackup) × (annotations ≡ snapshot_pvc_annotations b))
    ⊎ ((r : PvcRestore) × (annotations ≡ restoring_annotations r))

-- Such a PVC is marked as being restored, or has an empty schedule of its own.
abbrev Skipped : Dict String → Type 0
Skipped d =
    (is_some (lookup currently_restoring_annotation d) ≡ true)
    ⊎ (lookup backup_schedule_annotation d ≡ some "")

skipped : (d : Dict String) → IsTemporary d → Skipped d
unfolding snapshot_pvc_annotations restoring_annotations
skipped d (inl (b, e)) = inr (rw e (rw lookup-insert))
skipped d (inr (r, e)) = inl (rw e (rw lookup-insert))

own_schedule :
    (fallback : String) (pvc : Pvc) (n : Namespace) (s : String)
    → lookup backup_schedule_annotation pvc.meta.annotations ≡ some s
    → schedule_of fallback pvc n ≡ s
unfolding schedule_of
own_schedule fallback pvc n s h = ground arith

module _ (C : Client) (lo : Lo) (cron : Cron) (fl : Float) (cfg : AutomaticConfig) where
  -- Where the API returns the namespace and then a PVC with the annotations of a temporary PVC of
  -- a backup, or of the PVC of an unfinished restore, the creator of backups stops after these two
  -- reads, with an empty result: it makes no backup, whatever the schedules of the namespace and
  -- the operator and the other annotations are.
  pub temporary_pvc-ignored :
      (req : NamespacedName) (w : C.World) (n : Namespace) (pvc : Pvc)
      → let k : NamespacedName = record { namespace = req.namespace; name = req.namespace } in
        (C.get_namespace k w).0 ≡ ok n
        → (C.get_pvc req (C.get_namespace k w).1).0 ≡ ok pvc
        → IsTemporary pvc.meta.annotations
        → reconcile C lo cron fl cfg req w
          ≡ (done empty_result, (C.get_pvc req (C.get_namespace k w).1).1)
  unfolding reconcile call or_gone ◌>>=◌
  temporary_pvc-ignored req w n pvc found read temporary =
      elim (skipped pvc.meta.annotations temporary) [
        | inl restoring ↦ ground arith
        | inr unscheduled ↦ ground (
          arith,
          (eq_iff (schedule_of cfg.default_schedule pvc n) "").1
              (own_schedule _ pvc n "" unscheduled),
        )
      ]
