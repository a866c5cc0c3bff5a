-- ===== src/Backup/State.antt =====
-- The state of `PVCBackupReconciler`: its settings, its set of running backups and the cluster.
use backsnap.Base.{String, ◌<>◌, Bool, not, ◌&&◌, Option, none, some, List}
use backsnap.Base.{add, remove}
use backsnap.Base.Int.{ℤ}
use backsnap.Go.Time.{Duration, is_zero}
pub use backsnap.Kube.{key_of}
use backsnap.Kube.{NamespacedName}
use backsnap.Api.{PvcBackup}
use backsnap.Client.{Client}
use backsnap.Exec.{Exec, next, stop, panicked}
use backsnap.Settings.{BackupSettings}

-- The fields that are set once.
pub record Config : Type 0 where
  pub max_running_backups : ℤ
  pub sleep_between_backups : ℤ
  pub namespaces : List String
  pub exclude_namespaces : List String
  pub backup_settings : BackupSettings

-- `CurrentRunningBackups` is `none` while it is a nil map.
pub record State (C : Client) : Type 0 where
  pub world : C.World
  pub current_running_backups : Option (List String)

-- `backupQualifiedName`
unfoldable pub backup_qualified_name : NamespacedName → String
backup_qualified_name k = k.namespace <> "/" <> k.name

-- `backupIsRunning`
unfoldable pub backup_is_running : PvcBackup → Bool
backup_is_running b = not (is_zero b.status.started_at) && not (not (is_zero b.status.finished_at))

module _ (C : Client) where
  abbrev pub Action : Type 0 → Type 0
  Action A = Exec C.Failure (State C) A

  -- A call of the client or the clock.
  unfoldable pub call : {A : Type 0} → (C.World → A × C.World) → Action A
  call m s = let (r, w) = m s.world in (next r, record s { world = w })

  -- `time.Sleep(d)`
  unfoldable pub sleep : Duration → Action Unit
  sleep d s = (next tt, record s { world = C.sleep d s.world })

  -- `delete(r.CurrentRunningBackups, name)`, which does nothing to a nil map.
  unfoldable pub forget : String → Action Unit
  forget name s = elim s.current_running_backups [
    | none ↦ (next tt, s)
    | some running ↦ (next tt, record s { current_running_backups = some (remove name running) })
  ]

  -- `r.CurrentRunningBackups[name] = struct{}{}`, which panics on a nil map.
  unfoldable pub occupy : String → Action Unit
  occupy name s = elim s.current_running_backups [
    | none ↦ (stop panicked, s)
    | some running ↦ (next tt, record s { current_running_backups = some (add name running) })
  ]
