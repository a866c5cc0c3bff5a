-- ===== src/Tests/Schedules.antt =====
-- The theorems on the creator of backups.
use backsnap.Base.{◌≡◌, refl, [], ◌∷◌, List, All, ◌⊎◌, inl}
use backsnap.Base.Int.{◌<ℤ◌, ◌≤ℤ◌, ◌-ℤ◌, ◌+ℤ◌, pos}
use backsnap.Exec.{done, next, empty_result, ◌>>=◌}
use backsnap.Go.Time.{second, sub}
use backsnap.Client.Actions.{call, or_gone}
use backsnap.Base.Dict.{lookup}
use backsnap.Settings.{requeue_after}
use backsnap.Exec.Trace.{Extends}
use backsnap.Api.{PvcBackup}
use backsnap.Backup.Objects.{snapshot_pvc_annotations}
use backsnap.Automatic.Schedule.{newest_backup, next_backup}
use backsnap.Automatic.Reconcile.{reconcile, reconcile_schedule}
use backsnap.Automatic.Rules.{Permitted}
use backsnap.Automatic.Safety.{automatic-Permitted}
use backsnap.Automatic.Due.{created, newest_backup_max, due_after_each}
use backsnap.Automatic.Never.{OneMore, never_due-OneMore}
use backsnap.Client.{ok}
use backsnap.Automatic.Schedule.{Cron}
use backsnap.Automatic.Ignored.{temporary_pvc-ignored}
use backsnap.Automatic.Pace.{automatic-IsSlow}
use backsnap.Exec.Paced.{IsSlow}
use backsnap.Automatic.Requests.{namespace_to_requests}
use backsnap.Automatic.Watches.{all_requests, namespace_to_requests-eq}
use backsnap.Tests.Helpers.{plain_lo, plain_lo-IsLawful}
use backsnap.Tests.Cluster.{World, cluster, cluster-IsRecorded, cluster_clock}
use backsnap.Tests.Samples.{
  key, unset, finished_at, backup, pvc, shop, world, automatic_config, two_hours, two_hours-IsCron,
  percent,
}
use mathlib.Core.List.{Memᴰ}

abbrev children : List PvcBackup
children = backup "new" 3 (finished_at 4) ∷ backup "old" 1 (finished_at 2) ∷ []

-- The next backup of `data` is due.
abbrev due : World
due = record world { backups = children }

automatic-Permitted_example :
    Extends
      (Permitted cluster plain_lo two_hours percent automatic_config (key "data"))
      []
      ((reconcile cluster plain_lo two_hours percent automatic_config (key "data") due).1.log)
automatic-Permitted_example =
    automatic-Permitted cluster (λ w. w.log) cluster-IsRecorded plain_lo two_hours percent
      automatic_config (key "data") due

newest_backup_max_example :
    let t = newest_backup plain_lo (pvc "data" []) children in
    (pos 1 ≤ℤ t)
    × All (λ b. created b ≤ℤ t) children
    × ((t ≡ pos 1) ⊎ ((b : PvcBackup) × Memᴰ b children × (t ≡ created b)))
newest_backup_max_example = newest_backup_max plain_lo plain_lo-IsLawful (pvc "data" []) children

due_after_each_example :
    let t = next_backup two_hours percent tt (newest_backup plain_lo (pvc "data" []) children) in
    (t ≡ pos 0) ⊎ ((pos 1 <ℤ t) × All (λ b. created b <ℤ t) children)
due_after_each_example =
    due_after_each plain_lo plain_lo-IsLawful two_hours two_hours-IsCron percent tt (pvc "data" [])
      children

-- The temporary PVC of a backup.
abbrev temporary : World
temporary = record world { pvcs = pvc "old" (snapshot_pvc_annotations (backup "old" 1 unset)) ∷ [] }

temporary_pvc-ignored_example :
    reconcile cluster plain_lo two_hours percent automatic_config (key "old") temporary ≡ (
      done empty_result,
      (cluster.get_pvc (key "old") (cluster.get_namespace (key "shop") temporary).1).1,
    )
temporary_pvc-ignored_example =
    temporary_pvc-ignored cluster plain_lo two_hours percent automatic_config (key "old") temporary
      shop (pvc "old" (snapshot_pvc_annotations (backup "old" 1 unset))) refl refl
      (inl (backup "old" 1 unset, refl))

-- The next time after the new backup has passed already.
due_done :
    (reconcile cluster plain_lo two_hours percent automatic_config (key "data") due).0
    ≡ done (record { requeue_after = second })
unfolding reconcile ◌>>=◌ call or_gone lookup reconcile_schedule sub ◌-ℤ◌ ◌+ℤ◌ requeue_after
due_done = refl

automatic-IsSlow_example : IsSlow (record { requeue_after = second })
automatic-IsSlow_example =
    automatic-IsSlow cluster plain_lo two_hours percent automatic_config (key "data") due _ due_done

namespace_to_requests-eq_example :
    (namespace_to_requests plain_lo automatic_config cluster "shop" due).0
    ≡ all_requests plain_lo automatic_config (pvc "data" [] ∷ [])
namespace_to_requests-eq_example =
    namespace_to_requests-eq plain_lo automatic_config "shop" plain_lo-IsLawful cluster due
      (pvc "data" [] ∷ []) refl (refl, tt)

-- No time matches, as for the 30th of February.
abbrev never : Cron
never = record { Expression = Unit; parse = λ text. ok tt; next_after = λ e t. pos 0 }

never_done :
    (reconcile_schedule cluster plain_lo never percent automatic_config (pvc "data" []) tt due).0
    ≡ next (record { requeue_after = second })
unfolding reconcile_schedule ◌>>=◌ call sub ◌-ℤ◌ ◌+ℤ◌ requeue_after
never_done = refl

-- A backup is created although one was created before.
never_due-OneMore_example :
    (second ≡ second)
    × OneMore cluster
        (λ w. w.log)
        (pvc "data" [])
        []
        (reconcile_schedule cluster plain_lo never percent automatic_config
          (pvc "data" [])
          tt
          due).1
never_due-OneMore_example =
    never_due-OneMore cluster (λ w. w.log) cluster-IsRecorded cluster_clock plain_lo never percent
      automatic_config tt (λ t. refl) (pvc "data" []) due (record { requeue_after = second })
      never_done
