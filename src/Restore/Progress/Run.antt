-- ===== src/Restore/Progress/Run.antt =====
-- The steps of a restore on an API that works.
use backsnap.Base.{
  ◌≡◌, ◌≢◌, refl, sym, ap, subst, ◌∙◌, String, true, false, none, some, eq_iff, arith,
}
use backsnap.Base.Dict.{Dict, lookup, erase}
use backsnap.Go.Time.{Time, is_zero, sub, round}
use backsnap.Go.Lo.{Lo}
use backsnap.Kube.{key_of, NamespacedName, Result, Pvc, Job}
use backsnap.Api.{PvcRestore}
use backsnap.Client.{Client, Reply, ok, err}
use backsnap.Client.Actions.{call, or_create, or_panic}
use backsnap.Client.Server.{Objects, IsServer, put}
use backsnap.Client.Machine.{At, At-step}
use backsnap.Client.Machine.Gets.{At-get_pvc, At-get_job}
use backsnap.Client.Machine.Creates.{At-create_pvc, At-create_job}
use backsnap.Client.Machine.Changes.{At-update_pvc, At-update_restore_status}
use backsnap.Client.Machine.{world_machine}
use backsnap.Exec.{Exec, Exit, ◌>>=◌}
use backsnap.Exec.Ends.{Ends, Ends-pure}
use backsnap.Settings.{BackupSettings, currently_restoring_annotation}
use backsnap.Restore.Objects.{
  new_target_pvc, new_restore_job, with_defaults, set_restore_finished, target_of,
}
use backsnap.Restore.Steps.{is_marked, ensure_target, ensure_job, end_restore, unmark, after_unmark}
use backsnap.Restore.Marks.{marked}
use backsnap.Restore.Progress.Phase.{target_key}

marked_complete :
    (d : Dict String) (uid : String)
    → lookup currently_restoring_annotation d ≡ some uid
    → is_marked d uid ≡ true
unfolding is_marked
marked_complete d uid h = rw h ((eq_iff uid uid).1 refl)

some-ne-none : {A : Type 0} (a : A) → some a ≢ none
some-ne-none a e = cc

or_create_missing :
    (C : Client) (S0 A : Type 0) (missing : C.Failure) (create : Exec C.Failure S0 A)
    → C.is_not_found missing ≡ true
    → or_create C (err missing) create ≡ create
unfolding or_create
or_create_missing C S0 A missing create e = rw e refl

-- The restore with its end.
abbrev pub ended : Time → Time → String → PvcRestore → PvcRestore
ended now started result r = record r {
  status = record r.status {
    finished_at = some now;
    duration = some (round (sub now started) 1000000000);
    result = some result;
  };
}

-- The PVC without the mark.
abbrev pub unmarked : Pvc → Pvc
unmarked p = record p {
  meta = record p.meta { annotations = erase currently_restoring_annotation p.meta.annotations };
}

set_restore_finished-started :
    (now started : Time) (result : String) (r : PvcRestore)
    → r.status.started_at ≡ some started
    → set_restore_finished now result r ≡ some (ended now started result r)
unfolding set_restore_finished
set_restore_finished-started now started result r e = ground (arith, e)

module _ (C : Client) (objects : C.World → Objects) (S : IsServer C objects)
    (settings : BackupSettings) (lo : Lo) (r : PvcRestore) where
  abbrev k : NamespacedName
  k = key_of r.meta

  abbrev pub Good :
      {A : Type 0}
      → (Exit C.Failure → C.World → Type 0)
      → Objects
      → (A → C.World → Type 0)
      → Exec C.Failure C.World A
      → Type 0
  Good E o Q m = Ends E (At C objects (world_machine C) o) Q m

  module _ {E : Exit C.Failure → C.World → Type 0} {o : Objects} where
    pub ensure_target_old :
        (p : Pvc)
        → o.pvcs (target_key r) ≡ some p
        → Good E o
            (λ p' s. (p' ≡ p) × At C objects (world_machine C) o s)
            (ensure_target C settings k (target_of r) r)
    unfolding ensure_target or_create
    ensure_target_old p there =
        At-get_pvc C objects S (world_machine C) (target_key r) (some p) _ there
          (Ends-pure p (λ s h. (refl, h)))

    pub ensure_target_new :
        o.pvcs (target_key r) ≡ none
        → Good E o
            (λ p s.
              (is_marked p.meta.annotations r.meta.uid ≡ true)
              × (key_of p.meta ≡ target_key r)
              × At C objects
                  (world_machine C)
                  (record o { pvcs = put (target_key r) (some p) o.pvcs })
                  s)
            (ensure_target C settings k (target_of r) r)
    unfolding ensure_target new_target_pvc is_marked ◌>>=◌
    ensure_target_new absent =
        At-get_pvc C objects S (world_machine C) (target_key r) none _ absent (
          rw (or_create_missing C C.World Pvc S.missing _ S.missing_lem) (
            At-create_pvc C objects S (world_machine C) _ _ absent (λ w. Ends-pure _ (λ s h. (
              marked_complete _ _ (
                  ap (lookup currently_restoring_annotation) (S.assigned-annotations w _)
                  ∙ marked r),
              S.assigned-key w _,
              h,
            )))))

    pub ensure_job_old :
        (p : Pvc) (j : Job)
        → o.jobs k ≡ some j
        → Good E o
            (λ x s. (x ≡ (j, r)) × At C objects (world_machine C) o s)
            (ensure_job C lo settings k r p)
    unfolding ensure_job or_create
    ensure_job_old p j there =
        At-get_job C objects S (world_machine C) k (some j) _ there (Ends-pure _ (λ s h. (refl, h)))

    pub ensure_job_new :
        (p : Pvc)
        → o.jobs k ≡ none
        → Good E o
            (λ x s.
              (is_marked x.0.meta.annotations r.meta.uid ≡ true)
              × (x.1.meta ≡ r.meta)
              × (is_zero x.0.completion_time ≡ true)
              × At C objects (world_machine C) (record o { jobs = put k (some x.0) o.jobs }) s)
            (ensure_job C lo settings k r p)
    unfolding ensure_job new_restore_job with_defaults ◌>>=◌
    ensure_job_new p absent = At-get_job C objects S (world_machine C) k none _ absent (
        rw (or_create_missing C C.World (Job × PvcRestore) S.missing _ S.missing_lem) (
          rw
            (S.set_controller_reference-ok "PVCRestore" (with_defaults r).meta
              (new_restore_job lo settings (with_defaults r) p.meta.name).meta refl refl)
            (At-create_job C objects S (world_machine C) _ _ absent (λ w. Ends-pure _ (λ s h. (
              marked_complete _ _ (
                  ap (lookup currently_restoring_annotation) (S.assigned-annotations w _)
                  ∙ marked r),
              refl,
              refl,
              h,
            ))))))

    pub end_restore_lem :
        (result : String) (started : Time)
        → r.status.started_at ≡ some started
        → o.restores k ≡ some r
        → Good E o
            (λ _ s.
              (now : Time) × (is_zero (some now) ≡ false)
              × At C objects
                  (world_machine C)
                  (record o { restores = put k (some (ended now started result r)) o.restores })
                  s)
            (end_restore C result r)
    unfolding end_restore or_panic ◌>>=◌
    end_restore_lem result started begun stored = At-step C objects (world_machine C) C.now _ λ w e.
        (
          (C.now w).0,
          o,
          (refl, S.now-objects w ∙ e),
          rw (set_restore_finished-started (C.now w).0 started result r begun) (
              At-update_restore_status C objects S (world_machine C) _ r _ stored
                (Ends-pure _ (λ s h. ((C.now w).0, S.now-nonzero w, h)))),
        )

module _ (C : Client) (objects : C.World → Objects) (S : IsServer C objects)
    (settings : BackupSettings) (lo : Lo) (r : PvcRestore) {E : Exit C.Failure → C.World → Type 0}
    {o : Objects} where
  At-update_named :
      {Q : Result → C.World → Type 0} (x : Pvc) (n : NamespacedName)
      (f : Reply C.Failure Pvc → Exec C.Failure C.World Result)
      → key_of x.meta ≡ n
      → o.pvcs n ≢ none
      → Ends E
          (At C objects (world_machine C) (record o { pvcs = put n (some x) o.pvcs }))
          Q
          (f (ok x))
      → Ends E (At C objects (world_machine C) o) Q (call C (C.update_pvc x) >>= f)
  At-update_named {Q} x n f named =
      subst
        (λ y.
          o.pvcs y ≢ none
          → Ends E (At C objects (world_machine C) (record o { pvcs = put y (some x) o.pvcs })) Q
              (f (ok x))
          → Ends E (At C objects (world_machine C) o) Q (call C (C.update_pvc x) >>= f))
        named (At-update_pvc C objects S (world_machine C) x f)

  pub unmark_lem :
      (p : Pvc) (started : Time)
      → key_of p.meta ≡ target_key r
      → o.pvcs (target_key r) ≡ some p
      → r.status.started_at ≡ some started
      → o.restores (key_of r.meta) ≡ some r
      → Ends E
          (At C objects (world_machine C) o)
          (λ _ s.
            (now : Time) × (is_zero (some now) ≡ false)
            × At C objects
                (world_machine C)
                (record o {
                  restores =
                      put (key_of r.meta) (some (ended now started "Succeeded" r)) o.restores;
                  pvcs = put (target_key r) (some (unmarked p)) o.pvcs;
                })
                s)
          (unmark C r p)
  unfolding unmark after_unmark
  unmark_lem p started named there begun stored =
      At-update_named (unmarked p) (target_key r) (after_unmark C r) named
        (λ e. absurd (some-ne-none p (sym there ∙ e)))
        (end_restore_lem C objects S settings lo r "Succeeded" started begun stored)
