-- ===== src/Backup/Freed.antt =====
-- The place of a backup whose Job has completed: which ends of `finish` give it back.
use backsnap.Base.{◌≡◌, refl, String, Option, none, some, List, remove}
use backsnap.Kube.{NamespacedName, Result}
use backsnap.Api.{PvcBackup}
use backsnap.Client.{Client, Reply, ok, err}
use backsnap.Client.Actions.{or_panic, or_wrap}
use backsnap.Exec.{Exit, Step, next, stop}
use backsnap.Exec.Ends.{Ends, Post, Ends-pure, Ends-exit, Ends-or_fail, Ends-bind}
use backsnap.Backup.State.{Config, State, call, sleep, forget}
use backsnap.Backup.Steps.{finished_backup, finish}

-- The set is given back without the name by an action that goes on, and unchanged by a `return`.
abbrev pub places_at : {F A : Type 0} → Step F A → String → List String → List String
places_at (next _) name running = remove name running
places_at (stop _) name running = running

module _ (C : Client) (cfg : Config) (req : NamespacedName) (name : String)
    (running : List String) where
  abbrev Held : State C → Type 0
  Held s = s.current_running_backups ≡ some running

  abbrev Freed : State C → Type 0
  Freed s = s.current_running_backups ≡ some (remove name running)

  abbrev Unfreed : Exit C.Failure → State C → Type 0
  Unfreed e s = Held s

  call-Held : {A : Type 0} (op : C.World → A × C.World) → Ends Unfreed Held (λ _. Held) (call C op)
  unfolding call
  call-Held op = record { at = λ s h. h }

  sleep-Held : (d : _) → Ends Unfreed Held (λ _. Held) (sleep C d)
  unfolding sleep
  sleep-Held d = record { at = λ s h. h }

  or_panic-Held : {A : Type 0} (o : Option A) → Ends Unfreed Held (λ _. Held) (or_panic C o)
  unfolding or_panic
  or_panic-Held none = Ends-exit _ (λ s h. h)
  or_panic-Held (some a) = Ends-pure a (λ s h. h)

  or_wrap-Held :
      (message : String) (r : Reply C.Failure Unit)
      → Ends Unfreed Held (λ _. Held) (or_wrap C message r)
  unfolding or_wrap
  or_wrap-Held message (ok _) = Ends-pure tt (λ s h. h)
  or_wrap-Held message (err e) = Ends-exit _ (λ s h. h)

  forget-Freed : Ends Unfreed Held (λ _. Freed) (forget C name)
  unfolding forget
  forget-Freed = record { at = λ s h. rw h refl }

  finished_backup-Held : (b : PvcBackup) → Ends Unfreed Held (λ _. Held) (finished_backup C cfg b)
  unfolding finished_backup
  finished_backup-Held b = Ends-bind _ _ (call-Held _) λ now. or_panic-Held _

  finish-Freed : (b : PvcBackup) → Ends Unfreed Held (λ _. Freed) (finish C cfg req name b)
  unfolding finish
  finish-Freed b = Ends-bind _ _ (finished_backup-Held b) λ b'. Ends-bind _ _ (sleep-Held _) λ _.
      Ends-bind _ _ (call-Held _) λ updated.
        Ends-bind _ _ (Ends-or_fail updated (λ a q s h. h) (λ e s h. h)) λ _.
          Ends-bind _ _ (call-Held _) λ polled.
            Ends-bind _ _ (or_wrap-Held _ polled)
              λ _. Ends-bind _ _ forget-Freed λ _. Ends-pure _ (λ s h. h)

  Post-places :
      (r : Step C.Failure Result) (s : State C)
      → Post (λ _. Freed) Unfreed (r, s)
      → s.current_running_backups ≡ some (places_at r name running)
  Post-places (next r) s h = h
  Post-places (stop e) s h = h

  -- At the end of a backup, where the set of running backups is known, whatever the API replies and
  -- whatever the backup is: its place is given back, and no other, if a result is returned. On every
  -- other end, an error of the update or of the poll, or a panic, the set is unchanged, and so a
  -- place that it holds stays taken.
  pub place_freed :
      (b : PvcBackup) (s : State C)
      → s.current_running_backups ≡ some running
      → (finish C cfg req name b s).1.current_running_backups
        ≡ some (places_at (finish C cfg req name b s).0 name running)
  place_freed b s known = Post-places _ _ ((finish-Freed b).at s known)
