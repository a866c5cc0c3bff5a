-- ===== src/Tests/Backups.antt =====
-- The theorems on the backup reconciler, on the cluster in memory.
use backsnap.Base.{
  ◌≡◌, refl, Bool, true, false, Option, none, some, [], ◌∷◌, arith, elem, any, IsNodup, List,
  String,
}
use backsnap.Base.{◌&&◌, str_eq}
use backsnap.Base.Int.{pos}
use backsnap.Api.{PvcBackup}
use backsnap.Exec.{next, done, failed, api}
use backsnap.Exec.Trace.{Extends}
use backsnap.Settings.{requeue_after, ignores}
use backsnap.Backup.State.{State, key_of, backup_qualified_name, call, sleep, forget, occupy}
use backsnap.Backup.Steps.{admit, mark_started, ensure_snapshot, is_ready, ensure_snapshot_pvc}
use backsnap.Backup.Steps.{ensure_job, finish, seconds}
use backsnap.Base.{add, remove}
use backsnap.Go.Time.{sub, round, saturate}
use backsnap.Base.Int.{◌-ℤ◌, ◌+ℤ◌}
use backsnap.Exec.{◌>>=◌}
use mathlib.Core.Option
use backsnap.Backup.Running.{find_current_running_backups}
use backsnap.Backup.Reconcile.{
  find_if_none, find_when_unset, reconcile, reconcile_backup, fetch_backup,
}
use backsnap.Backup.Reconcile.{reconcile_unfinished}
use backsnap.Backup.Rules.{Permitted}
use backsnap.Backup.Safety.Reconcile.{backup-Permitted}
use backsnap.Base.{◌≢◌, eq_iff}
use backsnap.Backup.Others.{others_keep_places}
use backsnap.Backup.Limit.{Within, reconcile-Within}
use backsnap.Backup.Restart.{find_all, failed_search_is_final, counts}
use backsnap.Backup.Places.{full_waits, finished_keeps_place}
use backsnap.Backup.Pace.{backup-IsSlow}
use backsnap.Backup.Freed.{place_freed, places_at}
use backsnap.Exec.Paced.{IsSlow}
use backsnap.Tests.Helpers.{plain_lo, plain_lo-IsLawful}
use backsnap.Tests.Cluster.{World, cluster, cluster-IsRecorded, get_backup-key_of}
use backsnap.Tests.Samples.{key, unset, finished_at, backup, pvc, ready, completed, world, config}

abbrev state : World → Option (List String) → State cluster
state w running = record { world = w; current_running_backups = running }

-- `old` finished before `new`, and its TTL has expired.
abbrev expired : State cluster
expired =
    state
      (record world {
        backups = backup "new" 3 (finished_at 4) ∷ backup "old" 1 (finished_at 2) ∷ [];
      })
      (some [])

-- And `old` has never given back its place.
abbrev holding : State cluster
holding = record expired { current_running_backups = some ("shop/old" ∷ []) }

-- `first` runs already, and `second` asks for a place.
abbrev full : State cluster
full =
    state (record world { backups = backup "first" 1 unset ∷ backup "second" 2 unset ∷ [] })
      (some ("shop/first" ∷ []))

-- The snapshot and the job of `first` are there, and the job has completed.
abbrev ending : State cluster
ending =
    state
      (record world {
        backups = backup "first" 1 (record unset { started_at = some (pos 2) }) ∷ [];
        snapshots = ready "first" ∷ [];
        jobs = completed "first" ∷ [];
      })
      (some ("shop/first" ∷ []))

backup-Permitted_example :
    Extends
      (Permitted (key "old"))
      []
      ((reconcile cluster plain_lo config (key "old") expired).1.world.log)
backup-Permitted_example =
    backup-Permitted cluster (λ w. w.log) cluster-IsRecorded plain_lo config (key "old") expired

reconcile-Within_example :
    Within cluster 1 (reconcile cluster plain_lo config (key "first") ending).1
reconcile-Within_example =
    reconcile-Within cluster plain_lo config 1 1 refl (omega arith) (omega arith) (key "first")
      ending
      (record {
        running = "shop/first" ∷ [];
        known = refl;
        nodup = (refl, tt);
        bound = omega arith;
      })

-- The place of `first` is free at the end.
ending_frees :
    (reconcile cluster plain_lo config (key "first") ending).1.current_running_backups ≡ some []
unfolding reconcile find_when_unset find_if_none ignores reconcile_backup fetch_backup
    reconcile_unfinished admit mark_started ensure_snapshot is_ready ensure_snapshot_pvc ensure_job
    finish seconds call sleep forget occupy backup_qualified_name remove sub round saturate ◌-ℤ◌
    ◌+ℤ◌ ◌>>=◌ Option.bind add
ending_frees = refl

full_waits_example : reconcile cluster plain_lo config (key "second") full ≡ (
  done (requeue_after (pos 30000000000)),
  record full {
    world = (cluster.get_pvc (key "data") (cluster.get_backup (key "second") full.world).1).1;
  },
)
unfolding ignores backup_qualified_name
full_waits_example =
    full_waits cluster plain_lo config (key "second") full ("shop/first" ∷ [])
      (backup "second" 2 unset) refl refl refl 1 (pvc "data" []) refl refl refl (omega arith)
      (omega arith) refl

finished_keeps_place_example :
    (reconcile cluster plain_lo config (key "old") holding).1.current_running_backups
    ≡ some ("shop/old" ∷ [])
unfolding ignores
finished_keeps_place_example =
    finished_keeps_place cluster plain_lo config (key "old") holding ("shop/old" ∷ [])
      (backup "old" 1 (finished_at 2)) refl refl refl refl

-- After a restart: `first` runs, `old` has finished, and listings fail if `broken`.
abbrev restarted : Bool → State cluster
restarted broken =
    state
      (record world {
        broken = broken;
        backups =
            backup "first" 1 (record unset { started_at = some (pos 2) })
            ∷ backup "old" 1 (finished_at 2)
            ∷ [];
      })
      none

find_all_example :
    (rs : List String) × (find_current_running_backups cluster plain_lo config (restarted false) ≡ (
      next tt,
      record {
        world = (cluster.list_backups none (restarted false).world).1;
        current_running_backups = some rs;
      },
    ))
    × IsNodup rs
    × ((k : String)
        → elem k rs
          ≡ any
              (λ b.
                counts ("kube-system" ∷ []) b && str_eq (backup_qualified_name (key_of b.meta)) k)
              (restarted false).world.backups)
find_all_example =
    find_all cluster plain_lo config plain_lo-IsLawful (restarted false)
      (restarted false).world.backups refl refl

failed_search_is_final_example :
    let after = reconcile cluster plain_lo config (key "first") (restarted true) in
    (after.0 ≡ failed (api "Timeout"))
    × (after.1.current_running_backups ≡ some [])
    × (find_when_unset cluster plain_lo config after.1 ≡ (next tt, after.1))
failed_search_is_final_example =
    failed_search_is_final cluster plain_lo config (key "first") (restarted true) "Timeout" refl
      refl refl

-- It is called again at once, which means after a second.
ending_done :
    (reconcile cluster plain_lo config (key "first") ending).0 ≡ done (requeue_after (pos 0))
unfolding reconcile find_when_unset find_if_none ignores reconcile_backup fetch_backup
    reconcile_unfinished admit mark_started ensure_snapshot is_ready ensure_snapshot_pvc ensure_job
    finish seconds call sleep forget occupy backup_qualified_name remove sub round saturate ◌-ℤ◌
    ◌+ℤ◌ ◌>>=◌ Option.bind add
ending_done = refl

backup-IsSlow_example : IsSlow (requeue_after (pos 0))
backup-IsSlow_example = backup-IsSlow cluster plain_lo config (key "first") ending _ ending_done

abbrev first : PvcBackup
first = backup "first" 1 (record unset { started_at = some (pos 2) })

-- The update is seen.
place_freed_example :
    (finish cluster config (key "first") "shop/first" first ending).1.current_running_backups
    ≡ some (
        places_at
          (finish cluster config (key "first") "shop/first" first ending).0
          "shop/first"
          ("shop/first" ∷ []))
place_freed_example =
    place_freed cluster config (key "first") "shop/first" ("shop/first" ∷ []) first ending refl

second-ne-first : backup_qualified_name (key "second") ≢ "shop/first"
unfolding backup_qualified_name
second-ne-first e =
    let h : str_eq "shop/second" "shop/first" ≡ true = (eq_iff "shop/second" "shop/first").1 e in cc

others_keep_places_example :
    (rs : List String) × ((reconcile cluster plain_lo config
        (key "second")
        full).1.current_running_backups
      ≡ some rs)
    × (elem "shop/first" rs ≡ true)
unfolding backup_qualified_name
others_keep_places_example =
    others_keep_places cluster plain_lo config (key "second") "shop/first" full ("shop/first" ∷ [])
      (get_backup-key_of (key "second")) second-ne-first refl
