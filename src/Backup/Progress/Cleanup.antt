-- ===== src/Backup/Progress/Cleanup.antt =====
-- The reconcile of a backup that has succeeded, on an API that works.
use backsnap.Base.{◌≡◌, refl, sym, subst, ap, ◌∙◌, String, true, false, Option, none, some, List}
use backsnap.Base.Int.{pos, leb_ℤ}
use backsnap.Go.Time.{Time, Duration, add, sub, is_zero}
use backsnap.Go.Lo.{Lo}
use backsnap.Kube.{key_of, Result}
use backsnap.Api.{PvcBackup}
use backsnap.Client.{Client, ok}
use backsnap.Client.Actions.{or_absent}
use backsnap.Client.Server.{Objects, IsServer, put, found, deleted}
use backsnap.Client.Machine.{At}
use backsnap.Client.Machine.Changes.{At-delete_pvc, At-delete_snapshot, At-delete_job}
use backsnap.Exec.{Exec, Exit, Step, pure, done, next, stop, exit_of, ◌>>=◌}
use backsnap.Exec.Ends.{Ends, Post, Ends-pure}
use backsnap.Settings.{ignores, requeue_after}
use backsnap.Backup.State.{Config, State, call}
use backsnap.Backup.Finished.{succeeded, clean_up, reconcile_finished}
use backsnap.Backup.Reconcile.{reconcile}
use backsnap.Backup.Places.{ended, reconcile-finished, fetched}
use backsnap.Backup.Progress.Run.{machine}
use mathlib.Core.Option

module _ (C : Client) (objects : C.World → Objects) (S : IsServer C objects) where
  or_absent-deleted :
      {St A : Type 0} (v : Option A) → or_absent C {S = St} (deleted S.missing v) ≡ pure tt
  unfolding or_absent
  or_absent-deleted none = rw S.missing_lem refl
  or_absent-deleted (some a) = refl

  -- The objects once those of the backup are gone.
  abbrev pub cleaned : PvcBackup → Objects → Objects
  cleaned b o = record o {
    snapshots = put (key_of b.meta) none o.snapshots;
    jobs = put (key_of b.meta) none o.jobs;
    pvcs = put (key_of b.meta) none o.pvcs;
  }

  clean_up-Ends :
      {E : Exit C.Failure → State C → Type 0} (rs : List String) (o : Objects) (b : PvcBackup)
      (d : Duration)
      → Ends E
          (At C objects (machine C rs) o)
          (λ r s. (r ≡ requeue_after d) × At C objects (machine C rs) (cleaned b o) s)
          (clean_up C b d)
  unfolding clean_up ◌>>=◌
  clean_up-Ends rs o b d = At-delete_snapshot C objects S (machine C rs) _ _ (
      rw (or_absent-deleted (o.snapshots (key_of b.meta))) (
        At-delete_job C objects S (machine C rs) _ _ (
          rw (or_absent-deleted (o.jobs (key_of b.meta))) (
            At-delete_pvc C objects S (machine C rs) _ _
              (rw (or_absent-deleted (o.pvcs (key_of b.meta))) (Ends-pure _ (λ s h. (refl, h))))))))

  -- What a reconcile that goes well comes to.
  Ends-done :
      (r : Result) (L : State C → Type 0) {P : State C → Type 0}
      (m : Exec C.Failure (State C) Result)
      → Ends (λ e s. ⊥) P (λ r' s. (r' ≡ r) × L s) m
      → (s : State C) → P s
      → (exit_of (m s).0 ≡ done r) × L (m s).1
  Ends-done r L m k s p = Post_done (m s).0 (m s).1 (k.at s p)
    where
      Post_done :
          (x : Step C.Failure Result) (z : State C)
          → Post (λ r' s. (r' ≡ r) × L s) (λ e s. ⊥) (x, z)
          → (exit_of x ≡ done r) × L z
      Post_done (next r') z h = (ap done h.0, h.1)
      Post_done (stop e) z h = absurd h

  module _ (lo : Lo) (cfg : Config) (b : PvcBackup) (t : Time) (rs : List String) (s : State C)
      (finished : b.status.finished_at ≡ some t) (known : s.current_running_backups ≡ some rs)
      (watched : ignores lo cfg.namespaces cfg.exclude_namespaces b.meta.namespace ≡ false)
      (stored : (objects s.world).backups (key_of b.meta) ≡ some b) where
    -- The time until the backup is deleted, as its reconcile reads the clock.
    abbrev pub until_deletion : Duration
    until_deletion = sub (add t b.spec.ttl) (C.clock_now (C.get_backup (key_of b.meta) s.world).1).0

    cleaned_up :
        (s' : State C)
        → objects s'.world ≡ objects s.world
        → s'.current_running_backups ≡ some rs
        → succeeded b.status.result ≡ true
        → leb_ℤ (sub (add t b.spec.ttl) (C.clock_now s'.world).0) (pos 0) ≡ false
        → let d = sub (add t b.spec.ttl) (C.clock_now s'.world).0 in
          (exit_of (reconcile_finished C b t s').0 ≡ done (requeue_after d))
          × At C objects
              (machine C rs)
              (cleaned b (objects s.world))
              (reconcile_finished C b t s').1
    unfolding reconcile_finished ◌>>=◌ call
    cleaned_up s' same known' success alive =
        let d = sub (add t b.spec.ttl) (C.clock_now s'.world).0 in
        rw (success, alive)
          (Ends-done (requeue_after d) (At C objects (machine C rs) (cleaned b (objects s.world))) _
            (clean_up-Ends rs (objects s.world) b d) _ (S.clock_now-objects _ ∙ same, known'))

    -- On an API that works, the reconcile of a backup that has succeeded and whose time to live has
    -- not passed deletes the snapshot, the Job and the PVC that have the backup's own name, changes
    -- no other object and no place, and is requeued for the end of the time to live. Nothing is
    -- asked about whom these objects belong to: a PVC that is backed up under its own name is
    -- deleted too. Conditions: the set of running backups is known and the namespace is watched.
    pub reconcile-cleaned :
        is_zero (some t) ≡ false
        → succeeded b.status.result ≡ true
        → leb_ℤ until_deletion (pos 0) ≡ false
        → let s' = (reconcile C lo cfg (key_of b.meta) s).1 in
          ((reconcile C lo cfg (key_of b.meta) s).0 ≡ done (requeue_after until_deletion))
          × (objects s'.world ≡ cleaned b (objects s.world))
          × (s'.current_running_backups ≡ some rs)
    reconcile-cleaned set success alive =
        let read = S.get_backup-Answers (key_of b.meta) s.world in
        let replied : (C.get_backup (key_of b.meta) s.world).0 ≡ ok b =
          read.0 ∙ ap (found S.missing) stored in
        let start = fetched C lo cfg (key_of b.meta) s rs b known watched replied in
        let turned : reconcile C lo cfg (key_of b.meta) s
            ≡ ended C lo cfg (reconcile_finished C b t start) =
          reconcile-finished C lo cfg (key_of b.meta) s rs b known watched replied
            (ap is_zero finished ∙ set)
          ∙ ap (λ f. ended C lo cfg (reconcile_finished C b (Option.get_or f (pos 0)) start))
              finished in
        let cleaning = cleaned_up start read.1 known success alive in
        subst
          (λ z.
            (z.0 ≡ done (requeue_after until_deletion))
            × (objects z.1.world ≡ cleaned b (objects s.world))
            × (z.1.current_running_backups ≡ some rs))
          (sym turned) (cleaning.0, cleaning.1.0, cleaning.1.1)
