-- ===== src/Restore/Progress/Rest.antt =====
-- A reconcile of a restore on an API that works, once it has its start time.
use backsnap.Base.{
  ◌≡◌, refl, sym, ap, subst, ◌∙◌, true, false, not, Option, none, some, str_eq, Bool-cases, inl,
  inr, if◌then◌else◌, eq_iff, arith,
}
use backsnap.Base.Dict.{lookup-erase}
use backsnap.Go.Time.{Time, is_zero}
use backsnap.Go.Lo.{Lo}
use backsnap.Kube.{key_of, NamespacedName, Result, Pvc, Job}
use backsnap.Api.{PvcRestore}
use backsnap.Client.{Client}
use backsnap.Client.Server.{Objects, IsServer, put, put_self}
use backsnap.Client.Machine.{At}
use backsnap.Client.Machine.{world_machine}
use backsnap.Exec.{Exec, pure, empty_result, ◌>>=◌}
use backsnap.Exec.Ends.{Ends, Ends-pure, Ends-bind, Ends-map, Ends-fact}
use backsnap.Settings.{currently_restoring_annotation}
use backsnap.Restore.Objects.{target_of}
use backsnap.Restore.Steps.{RestoreConfig, is_marked, ensure_job, end_restore, unmark}
use backsnap.Restore.Reconcile.{restore_into}
use backsnap.Restore.Progress.Phase.{
  Phase, Stage, phase_of, phase_of_job, phase_of_pvc, advance, target_key, blocked, restoring,
  restored, succeeded, failed,
}
use backsnap.Restore.Progress.Run.{
  ended, unmarked, ensure_target_old, ensure_target_new, ensure_job_old, ensure_job_new,
  end_restore_lem, unmark_lem,
}
use mathlib.Core.Option.{some-injective}

module _ (C : Client) (objects : C.World → Objects) (S : IsServer C objects) (cfg : RestoreConfig)
    (lo : Lo) (r : PvcRestore) where
  abbrev k : NamespacedName
  k = key_of r.meta

  abbrev pub Lands : Phase → Objects → Exec C.Failure C.World Result → Type 0
  Lands p o m =
      Ends (λ e w. Stage (key_of r.meta) (advance p) (objects w)) (At C objects (world_machine C) o)
        (λ x w. Stage (key_of r.meta) (advance p) (objects w)) m

  -- What is known of the objects.
  pub record Facts (o : Objects) : Type 0 where
    pub stored : o.restores (key_of r.meta) ≡ some r
    pub named : (v : Pvc) → o.pvcs (target_key r) ≡ some v → key_of v.meta ≡ target_key r

  -- The rest of a reconcile, from the Job on.
  abbrev from_job : Pvc → Job × PvcRestore → Exec C.Failure C.World Result
  from_job v (job, r') =
      if not (is_marked job.meta.annotations r'.meta.uid)
      then end_restore C "Failed" r'
      else if is_zero job.completion_time
      then pure empty_result
      else unmark C r' v

  -- From the PVC on.
  abbrev from_pvc : Pvc → Exec C.Failure C.World Result
  from_pvc v =
      if not (is_marked v.meta.annotations r.meta.uid)
      then end_restore C "Failed" r
      else ensure_job C lo cfg.backup_settings (key_of r.meta) r v >>= from_job v

  module _ (unfinished : is_zero r.status.finished_at ≡ true) (started : Time)
      (begun : r.status.started_at ≡ some started) (target : str_eq (target_of r) "" ≡ false) where
    -- The restore ends without a change of its PVC.
    fails : (o : Objects) → Facts o → Lands blocked o (end_restore C "Failed" r)
    unfolding target_of
    fails o facts =
        Ends-map
          (end_restore_lem C objects S cfg.backup_settings lo r "Failed" started begun facts.stored)
          λ x w h.
            let (now, e, at) = h in
            subst (Stage (key_of r.meta) failed) (sym at.0) (record {
              restore = ended now started "Failed" r;
              key = refl;
              stored = put_self _ _ _;
              target = target;
              phase = rw e refl;
              named = facts.named;
              freed = tt;
            })

    waits :
        (o : Objects)
        → Facts o
        → phase_of r (o.pvcs (target_key r)) (o.jobs (key_of r.meta)) ≡ restoring
        → Lands restoring o (pure empty_result)
    waits o facts phase = Ends-pure _ λ w h.
        subst (Stage (key_of r.meta) restoring) (sym h.0) (record {
          restore = r;
          key = refl;
          stored = facts.stored;
          target = target;
          phase = phase;
          named = facts.named;
          freed = tt;
        })

    unmarks :
        (o : Objects) (v : Pvc)
        → Facts o
        → o.pvcs (target_key r) ≡ some v
        → Lands restored o (unmark C r v)
    unfolding target_of
    unmarks o v facts there =
        Ends-map
          (unmark_lem C objects S cfg.backup_settings lo r v started (facts.named v there) there
            begun facts.stored)
          λ x w h.
            let (now, e, at) = h in
            subst (Stage (key_of r.meta) succeeded) (sym at.0) (record {
              restore = ended now started "Succeeded" r;
              key = refl;
              stored = put_self _ _ _;
              target = target;
              phase = rw e refl;
              named = λ u there'.
                  let same : unmarked v ≡ u = some-injective _ _ (sym (put_self _ _ _) ∙ there') in
                  rw (← same) (facts.named v there);
              freed = rw put_self (
                  rw lookup-erase (
                    ground (
                      arith,
                      eq_iff currently_restoring_annotation currently_restoring_annotation,
                    )));
            })

    Job_old :
        (o : Objects) (v : Pvc) (j : Job)
        → Facts o
        → o.pvcs (target_key r) ≡ some v
        → is_marked v.meta.annotations r.meta.uid ≡ true
        → o.jobs (key_of r.meta) ≡ some j
        → Lands (phase_of_job r (some j)) o (from_job v (j, r))
    Job_old o v j facts there own e = elim (Bool-cases (is_marked j.meta.annotations r.meta.uid)) [
      | inr foreign ↦ rw foreign (fails o facts)
      | inl mine ↦ elim (Bool-cases (is_zero j.completion_time)) [
        | inr complete ↦ rw (mine, complete) (unmarks o v facts there)
        | inl incomplete ↦
            let phase : phase_of r (o.pvcs (target_key r)) (o.jobs (key_of r.meta)) ≡ restoring =
              rw (unfinished, there, own, e, mine, incomplete) refl in
            rw (mine, incomplete) (waits o facts phase)
      ]
    ]

    -- From a PVC with the mark of the restore on.
    Job-Lands :
        (o : Objects) (v : Pvc) (j : Option Job)
        → Facts o
        → o.pvcs (target_key r) ≡ some v
        → is_marked v.meta.annotations r.meta.uid ≡ true
        → o.jobs (key_of r.meta) ≡ j
        → Lands
            (phase_of_job r j)
            o
            (ensure_job C lo cfg.backup_settings (key_of r.meta) r v >>= from_job v)
    Job-Lands o v none facts there own absent =
        Ends-bind _ _ (ensure_job_new C objects S cfg.backup_settings lo r v absent) λ x. record {
          at = λ w h.
              let (mine, same, incomplete, at) = h in
              let o' = record o { jobs = put (key_of r.meta) (some x.0) o.jobs } in
              let mine' : is_marked x.0.meta.annotations x.1.meta.uid ≡ true =
                ap (λ m. is_marked x.0.meta.annotations m.uid) same ∙ mine in
              let phase : phase_of r (o'.pvcs (target_key r)) (o'.jobs (key_of r.meta))
                  ≡ restoring =
                rw (unfinished, there, own, put_self, mine, incomplete) refl in
              let facts' : Facts o' = record { stored = facts.stored; named = facts.named } in
              rw (mine', incomplete) ((waits o' facts' phase).at w at);
        }
    Job-Lands o v (some j) facts there own e =
        Ends-bind _ _ (ensure_job_old C objects S cfg.backup_settings lo r v j e) λ x.
          Ends-fact λ same.
            subst (λ y. Lands (phase_of_job r (some j)) o (from_job v y)) (sym same)
              (Job_old o v j facts there own e)

    Pvc-Lands :
        (o : Objects) (v : Option Pvc)
        → Facts o
        → o.pvcs (target_key r) ≡ v
        → Lands
            (phase_of_pvc r v (o.jobs (key_of r.meta)))
            o
            (restore_into C lo cfg (key_of r.meta) (target_of r) r)
    unfolding restore_into
    Pvc-Lands o none facts absent =
        Ends-bind _ _ (ensure_target_new C objects S cfg.backup_settings lo r absent) λ v. record {
          at = λ w h.
              let (mine, key, at) = h in
              let o' : Objects = record o { pvcs = put (target_key r) (some v) o.pvcs } in
              let facts' : Facts o' = record {
                stored = facts.stored;
                named = λ u there.
                    let same : v ≡ u = some-injective _ _ (sym (put_self _ _ _) ∙ there) in
                    rw (← same) key;
              } in
              rw mine ((Job-Lands o' v _ facts' (put_self _ _ _) mine refl).at w at);
        }
    Pvc-Lands o (some v) facts there =
        Ends-bind _ _ (ensure_target_old C objects S cfg.backup_settings lo r v there) λ u.
          Ends-fact λ same.
            subst (λ y. Lands (phase_of_pvc r (some v) (o.jobs (key_of r.meta))) o (from_pvc y))
              (sym same)
              (elim (Bool-cases (is_marked v.meta.annotations r.meta.uid)) [
                | inl own ↦ rw own (Job-Lands o v _ facts there own refl)
                | inr foreign ↦ rw foreign (fails o facts)
              ])

    pub rest_lem :
        (o : Objects)
        → Facts o
        → Lands
            (phase_of r (o.pvcs (target_key r)) (o.jobs (key_of r.meta)))
            o
            (restore_into C lo cfg (key_of r.meta) (target_of r) r)
    rest_lem o facts = rw unfinished (Pvc-Lands o _ facts refl)
