-- ===== src/Backup/Panic/Quiet.antt =====
-- The steps that keep the set of running backups known, for nil dereferences and nil maps.
use backsnap.Base.{◌≡◌, ◌≢◌, refl, String, Bool, true, none, some, List, [], ◌∷◌, add, remove}
use backsnap.Base.{if◌then◌else◌, inl, inr}
use backsnap.Go.Time.{Time, Duration}
use backsnap.Go.Lo.{Lo}
use backsnap.Kube.{Result, VolumeSnapshot}
use backsnap.Api.{PvcBackup}
use backsnap.Client.{Client, Reply, ok, err}
use backsnap.Client.Actions.{or_absent, or_create, or_wrap}
use backsnap.Exec.{Exec, Exit, done, failed, panicked, Error, pure, exit, or_fail, when, ◌>>=◌}
use backsnap.Exec.Ends.{Ends, Ends-pure, Ends-exit, Ends-or_fail, Ends-if, Ends-when, Ends-bind}
use backsnap.Backup.State.{backup_is_running, Config, State, call, sleep, forget, occupy}
use backsnap.Backup.Running.{
  find_current_running_backups, mark, mark_included, find_in, all_namespaces,
}
use backsnap.Backup.Finished.{expire, clean_up, reconcile_finished}
use backsnap.Backup.Steps.{is_ready, admit, admit_cases, restore_size}

-- A snapshot that is ready to use has a size to restore.
abbrev pub Sized : VolumeSnapshot → Type 0
Sized v = is_ready v.status ≡ true → restore_size v ≢ none

-- A PVCBackup is stored with the start time that it is sent with.
abbrev pub KeepsStart : Client → Type 0
KeepsStart C =
    (x : PvcBackup) (w : C.World) (y : PvcBackup)
    → (C.update_backup_status x w).0 ≡ ok y
    → y.status.started_at ≡ x.status.started_at

-- A panic happens only where `K` holds.
abbrev pub Allows : {F S : Type 0} → (S → Type 0) → Exit F → S → Type 0
Allows K panicked s = K s
Allows K _ s = Unit

module _ (C : Client) where
  -- The set of running backups is not nil.
  abbrev pub Known : State C → Type 0
  Known s = (rs : List String) × (s.current_running_backups ≡ some rs)

module _ (C : Client) (K : State C → Type 0) where
  abbrev pub Quiet : {A : Type 0} → Exec C.Failure (State C) A → Type 0
  Quiet m = Ends (Allows K) (Known C) (λ _. Known C) m

  pub Quiet-pure : {A : Type 0} (a : A) → Quiet (pure a)
  Quiet-pure a = Ends-pure a (λ s h. h)

  pub Quiet-done : {A : Type 0} (r : Result) → Quiet {A = A} (exit (done r))
  Quiet-done r = Ends-exit (done r) (λ _ _. tt)

  pub Quiet-failed : {A : Type 0} (e : Error C.Failure) → Quiet {A = A} (exit (failed e))
  Quiet-failed e = Ends-exit (failed e) (λ _ _. tt)

  pub Quiet-or_fail : {A : Type 0} (r : Reply C.Failure A) → Quiet (or_fail r)
  Quiet-or_fail r = Ends-or_fail r (λ a q s h. h) (λ e s p. tt)

  pub Quiet-if :
      {A : Type 0} (b : Bool) (m n : Exec C.Failure (State C) A)
      → Quiet m
      → Quiet n
      → Quiet (if b then m else n)
  Quiet-if b m n km kn = Ends-if b m n (λ _. km) (λ _. kn)

  pub Quiet-when : (b : Bool) (m : Exec C.Failure (State C) Unit) → Quiet m → Quiet (when b m)
  Quiet-when b m k = Ends-when b m (λ _. k) (λ _ s h. h)

  pub Quiet-bind :
      {A B : Type 0} (m : Exec C.Failure (State C) A) (f : A → Exec C.Failure (State C) B)
      → Quiet m
      → ((a : A) → Quiet (f a))
      → Quiet (m >>= f)
  Quiet-bind m f km kf = Ends-bind m f km kf

  pub Quiet-call : {A : Type 0} (op : C.World → A × C.World) → Quiet (call C op)
  unfolding call
  Quiet-call op = record { at = λ s h. h }

  pub Quiet-sleep : (d : Duration) → Quiet (sleep C d)
  unfolding sleep
  Quiet-sleep d = record { at = λ s h. h }

  pub Quiet-forget : (name : String) → Quiet (forget C name)
  unfolding forget
  Quiet-forget name = record { at = λ s h. rw (h.1, forget) (remove name h.0, refl) }

  pub Quiet-occupy : (name : String) → Quiet (occupy C name)
  unfolding occupy
  Quiet-occupy name = record { at = λ s h. rw (h.1, occupy) (add name h.0, refl) }

  pub ruleset quiet_rules = (
    Quiet-pure, Quiet-done, Quiet-failed, Quiet-or_fail, Quiet-if, Quiet-when, Quiet-bind,
    Quiet-call, Quiet-sleep, Quiet-forget, Quiet-occupy,
  )

  pub or_absent-Quiet : (r : Reply C.Failure Unit) → Quiet (or_absent C r)
  unfolding or_absent
  or_absent-Quiet (ok _) = search quiet_rules
  or_absent-Quiet (err _) = search quiet_rules

  pub or_wrap-Quiet : (message : String) (r : Reply C.Failure Unit) → Quiet (or_wrap C message r)
  unfolding or_wrap
  or_wrap-Quiet message (ok _) = search quiet_rules
  or_wrap-Quiet message (err _) = search quiet_rules

  pub or_create-Quiet :
      {A : Type 0} (r : Reply C.Failure A) (create : Exec C.Failure (State C) A)
      → Quiet create
      → Quiet (or_create C r create)
  unfolding or_create
  or_create-Quiet (ok _) create k = search quiet_rules
  or_create-Quiet (err e) create k = Quiet-if (C.is_not_found e) _ _ k (Quiet-failed _)

  pub reconcile_finished-Quiet : (b : PvcBackup) (t : Time) → Quiet (reconcile_finished C b t)
  unfolding reconcile_finished expire clean_up
  reconcile_finished-Quiet b t = search (quiet_rules, or_absent-Quiet) depth 40

module _ (C : Client) (K : State C → Type 0) (lo : Lo) (cfg : Config) where
  pub mark-Quiet : (bs : List PvcBackup) → Quiet C K (mark C lo cfg bs)
  unfolding mark
  mark-Quiet [] = search quiet_rules
  mark-Quiet (b ∷ bs) =
      Quiet-if C K (backup_is_running b) _ _
        (Quiet-bind C K _ _ (Quiet-occupy C K _) λ _. mark-Quiet bs) (mark-Quiet bs)

  pub mark_included-Quiet : (bs : List PvcBackup) → Quiet C K (mark_included C lo cfg bs)
  unfolding mark_included
  mark_included-Quiet [] = search quiet_rules
  mark_included-Quiet (b ∷ bs) =
      Quiet-if C K (backup_is_running b) _ _
        (Quiet-if C K (lo.contains cfg.exclude_namespaces b.meta.namespace) _ _
          (mark_included-Quiet bs)
          (Quiet-bind C K _ _ (Quiet-occupy C K _) λ _. mark_included-Quiet bs))
        (mark_included-Quiet bs)

  pub find_in-Quiet : (ns : List String) → Quiet C K (find_in C lo cfg ns)
  unfolding find_in
  find_in-Quiet [] = search quiet_rules
  find_in-Quiet (n ∷ ns) =
      Quiet-if C K (lo.contains cfg.exclude_namespaces n) _ _ (find_in-Quiet ns) (
        Quiet-bind C K _ _ (Quiet-call C K _) λ reply.
          Quiet-bind C K _ _ (Quiet-or_fail C K reply)
            λ backups. Quiet-bind C K _ _ (mark-Quiet backups) λ _. find_in-Quiet ns)

  pub admit-Quiet : (name : String) → Quiet C K (admit C cfg name)
  admit-Quiet name = record {
    at = λ s h. elim (admit_cases C cfg name s) [
      | inl waits ↦ rw waits tt
      | inr taken ↦ rw taken ((Quiet-occupy C K name).at s h)
    ];
  }

  -- Whatever the set was, the search ends with a set, or with an error.
  pub find-Known :
      Ends (Allows K) (λ s. Unit) (λ _. Known C) (find_current_running_backups C lo cfg)
  unfolding find_current_running_backups all_namespaces
  find-Known =
      Ends-bind _ _ (record { at = λ s _. ([], refl) })
        λ _.
          Ends-if (all_namespaces cfg.namespaces) _ _
            (λ _. search (quiet_rules, mark_included-Quiet) depth 20)
            (λ _. find_in-Quiet cfg.namespaces)
