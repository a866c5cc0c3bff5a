-- ===== src/Backup/Places.antt =====
-- The places of running backups.
use backsnap.Base.{ℕ, ◌≡◌, refl, String, true, false, some, List, elem, length, arith}
use backsnap.Base.{◌<◌, ◌≤◌, ◌∙◌}
use backsnap.Base.Int.{pos}
use backsnap.Go.Time.{Time, is_zero}
use backsnap.Go.Lo.{Lo}
use backsnap.Kube.{NamespacedName, Pvc, Result}
use backsnap.Api.{PvcBackup}
use backsnap.Client.{Client, Reply, ok, err}
use backsnap.Client.Actions.{or_absent}
use backsnap.Exec.{Exit, Step, exit_of, done, stop, ◌>>=◌}
use backsnap.Exec.Keeps.{Keeps, keeps_rules}
use backsnap.Settings.{ignores, requeue_after}
use backsnap.Backup.State.{Config, State, call, key_of, backup_qualified_name}
use backsnap.Backup.Finished.{expire, clean_up, reconcile_finished}
use backsnap.Backup.Steps.{admit}
use backsnap.Backup.Reconcile.{
  find_if_none, find_when_unset, or_forget, fetch_backup, reconcile_unfinished, reconcile_backup,
  reconcile,
}
use mathlib.Core.Option

module _ (C : Client) (lo : Lo) (cfg : Config) where
  abbrev Holds : List String → State C → Type 0
  Holds rs s = s.current_running_backups ≡ some rs

  module _ (rs : List String) where
    call-Holds : {A : Type 0} (op : C.World → A × C.World) → Keeps (Holds rs) (call C op)
    unfolding call
    call-Holds op = record { at = λ s h. h }

    or_absent-Holds : (r : Reply C.Failure Unit) → Keeps (Holds rs) (or_absent C r)
    unfolding or_absent
    or_absent-Holds (ok _) = search keeps_rules
    or_absent-Holds (err _) = search keeps_rules

    reconcile_finished-Holds :
        (b : PvcBackup) (t : Time) → Keeps (Holds rs) (reconcile_finished C b t)
    unfolding reconcile_finished expire clean_up
    reconcile_finished-Holds b t = search (keeps_rules, call-Holds, or_absent-Holds) depth 40

  admit-full :
      (name : String) (s : State C) (rs : List String) (m : ℕ)
      → s.current_running_backups ≡ some rs
      → cfg.max_running_backups ≡ pos m
      → 0 < m
      → m ≤ length rs
      → elem name rs ≡ false
      → admit C cfg name s ≡ (stop (done (requeue_after (pos 30000000000))), s)
  unfolding admit
  admit-full name s rs m known limit positive full absent = ground (arith, known, limit)

  abbrev pub ended : Step C.Failure Result × State C → Exit C.Failure × State C
  ended (r, s) = (exit_of r, s)

  -- The reconcile of a backup, once the set is known, the namespace is watched and it is read.
  module _ (req : NamespacedName) (s : State C) (rs : List String) (b : PvcBackup)
      (known : s.current_running_backups ≡ some rs)
      (watched : ignores lo cfg.namespaces cfg.exclude_namespaces req.namespace ≡ false)
      (read : (C.get_backup req s.world).0 ≡ ok b) where
    abbrev pub fetched : State C
    fetched = record s { world = (C.get_backup req s.world).1 }

    pub reconcile-finished :
        is_zero b.status.finished_at ≡ false
        → reconcile C lo cfg req s
          ≡ ended (reconcile_finished C b (Option.get_or b.status.finished_at (pos 0)) fetched)
    unfolding reconcile find_when_unset find_if_none reconcile_backup fetch_backup or_forget call
        ◌>>=◌
    reconcile-finished finished = rw (known, find_if_none, watched, read, or_forget, finished) refl

    pub reconcile-unfinished :
        is_zero b.status.finished_at ≡ true
        → reconcile C lo cfg req s ≡ ended (reconcile_unfinished C lo cfg req b fetched)
    unfolding reconcile find_when_unset find_if_none reconcile_backup fetch_backup or_forget call
        ◌>>=◌
    reconcile-unfinished finished =
        rw (known, find_if_none, watched, read, or_forget, finished) refl

    -- A backup that is read as finished keeps its place: whatever the API replies, the set of
    -- running backups is after the reconcile what it was, also where it names that backup.
    pub finished_keeps_place :
        is_zero b.status.finished_at ≡ false
        → (reconcile C lo cfg req s).1.current_running_backups ≡ some rs
    finished_keeps_place finished = rw (reconcile-finished finished) (
        (reconcile_finished-Holds rs b (Option.get_or b.status.finished_at (pos 0))).at fetched
          known)

    abbrev pvc_key : NamespacedName
    pvc_key = record req { name = b.spec.pvc_name }

    abbrev read_pvc : State C
    read_pvc = record fetched { world = (C.get_pvc pvc_key fetched.world).1 }

    -- While the configured maximum of backups runs, an unfinished backup that is not among them
    -- waits: the reconcile reads the backup and its PVC and nothing else, leaves the set of
    -- running backups as it is, and is requeued after 30 seconds.
    pub full_waits :
        (m : ℕ) (pvc : Pvc)
        → is_zero b.status.finished_at ≡ true
        → (C.get_pvc pvc_key fetched.world).0 ≡ ok pvc
        → cfg.max_running_backups ≡ pos m
        → 0 < m
        → m ≤ length rs
        → elem (backup_qualified_name (key_of b.meta)) rs ≡ false
        → reconcile C lo cfg req s ≡ (
          done (requeue_after (pos 30000000000)),
          record s { world = (C.get_pvc pvc_key (C.get_backup req s.world).1).1 },
        )
    unfolding reconcile_unfinished admit call ◌>>=◌
    full_waits m pvc unfinished found limit positive full absent =
        reconcile-unfinished unfinished
        ∙ rw
            (
              found,
              admit-full (backup_qualified_name (key_of b.meta)) read_pvc rs m known limit positive
                  full absent,
            )
            refl
