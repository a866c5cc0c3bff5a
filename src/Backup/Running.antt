-- ===== src/Backup/Running.antt =====
-- `FindCurrentRunningBackups`: the running backups after a restart of the operator.
use backsnap.Base.{String, Bool, false, none, some, List, [], ◌∷◌, if◌then◌else◌, str_eq}
use backsnap.Api.{PvcBackup}
use backsnap.Go.Lo.{Lo}
use backsnap.Client.{Client}
use backsnap.Exec.{pure, next, or_fail, ◌>>=◌, ◌>>◌}
use backsnap.Backup.State.{Config, Action, call, key_of, occupy}
use backsnap.Backup.State.{backup_qualified_name, backup_is_running}

-- `len(r.Namespaces) == 1 && r.Namespaces[0] == ""`
unfoldable pub all_namespaces : List String → Bool
all_namespaces (n ∷ []) = str_eq n ""
all_namespaces _ = false

module _ (C : Client) (lo : Lo) (cfg : Config) where
  -- The loop over all backups, which skips the excluded namespaces.
  unfoldable pub mark_included : List PvcBackup → Action C Unit
  mark_included [] = pure tt
  mark_included (b ∷ bs) =
      let rest = mark_included bs in
      if backup_is_running b
      then (if lo.contains cfg.exclude_namespaces b.meta.namespace
          then rest
          else do occupy C (backup_qualified_name (key_of b.meta)); rest)
      else rest

  -- The loop over the backups of one namespace.
  unfoldable pub mark : List PvcBackup → Action C Unit
  mark [] = pure tt
  mark (b ∷ bs) =
      let rest = mark bs in
      if backup_is_running b
      then (do occupy C (backup_qualified_name (key_of b.meta)); rest)
      else rest

  unfoldable pub find_in : List String → Action C Unit
  find_in [] = pure tt
  find_in (namespace ∷ namespaces) =
      let rest = find_in namespaces in
      if lo.contains cfg.exclude_namespaces namespace then rest else do
        reply ← call C (C.list_backups (some namespace))
        backups ← or_fail reply
        mark backups
        rest

  -- The set is emptied first, also where the listing then fails.
  unfoldable pub find_current_running_backups : Action C Unit
  unfolding mark_included mark find_in all_namespaces
  find_current_running_backups = do
    (λ s. (next tt, record s { current_running_backups = some [] }))
    if all_namespaces cfg.namespaces
        then (do
          reply ← call C (C.list_backups none)
          backups ← or_fail reply
          mark_included backups)
        else find_in cfg.namespaces
