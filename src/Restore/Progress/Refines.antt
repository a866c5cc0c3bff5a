-- ===== src/Restore/Progress/Refines.antt =====
-- The reconcile of a restore against the abstract world_machine of its phases.
use backsnap.Base.{
  ◌≡◌, refl, sym, ap, subst, ◌∙◌, String, Bool, true, false, Option, none, some, str_eq, Bool-cases,
  inl, inr, if◌then◌else◌,
}
use backsnap.Go.Time.{Time, is_zero}
use backsnap.Go.Lo.{Lo}
use backsnap.Kube.{key_of, NamespacedName, Pvc, Job}
use backsnap.Api.{PvcRestore}
use backsnap.Client.{Client}
use backsnap.Client.Server.{Objects, IsServer, put, put_self}
use backsnap.Client.Machine.{At, At-any}
use backsnap.Client.Machine.Gets.{At-get_restore}
use backsnap.Client.Machine.Changes.{At-update_restore_status}
use backsnap.Exec.{◌>>=◌}
use backsnap.Exec.Ends.{Ends_state, Ends-pure, Ends-bind}
use backsnap.Settings.{ignores}
use backsnap.Restore.Objects.{target_of}
use backsnap.Restore.Steps.{RestoreConfig, start_if_unset}
use backsnap.Client.Actions.{or_gone, call}
use backsnap.Restore.Reconcile.{restore_into, reconcile_restore, reconcile}
use backsnap.Restore.Progress.Phase.{
  Phase, Stage, phase_of, phase_of_pvc, phase_of_status, advance, is_over, target_key,
}
use backsnap.Client.Machine.{world_machine}
use backsnap.Restore.Progress.Rest.{Facts, Lands, rest_lem}

over_of_status : (x : Option String) → is_over (phase_of_status x) ≡ true
over_of_status none = refl
over_of_status (some x) = elim (Bool-cases (str_eq x "Succeeded")) [
  | inl e ↦ rw e refl
  | inr e ↦ rw e refl
]

not_over : {b c : Bool} → c ≡ false → c ≡ true → b ≡ true
not_over e h = cc

unfinished_of_phase :
    (r : PvcRestore) (v : Option Pvc) (j : Option Job)
    → is_over (phase_of r v j) ≡ false
    → is_zero r.status.finished_at ≡ true
unfinished_of_phase r v j h = elim (Bool-cases (is_zero r.status.finished_at)) [
  | inl e ↦ e
  | inr e ↦
      not_over
        (ap (λ t. is_over (if t then phase_of_pvc r v j else phase_of_status r.status.result))
            (sym e)
          ∙ h)
        (over_of_status r.status.result)
]

module _ (C : Client) (objects : C.World → Objects) (S : IsServer C objects) (cfg : RestoreConfig)
    (lo : Lo) where
  module _ (r : PvcRestore) (unfinished : is_zero r.status.finished_at ≡ true)
      (target : str_eq (target_of r) "" ≡ false) where
    abbrev phase_at : Objects → Phase
    phase_at o = phase_of r (o.pvcs (target_key r)) (o.jobs (key_of r.meta))

    abbrev begin : Time → PvcRestore
    begin now = record r { status = record r.status { started_at = some now } }

    abbrev begun_at : Time → Objects → Objects
    begun_at now o = record o { restores = put (key_of r.meta) (some (begin now)) o.restores }

    -- The restore is stored with a start time.
    abbrev Begun : Objects → PvcRestore → C.World → Type 0
    Begun o r' w =
        (now : Time) × (r' ≡ begin now) × At C objects (world_machine C) (begun_at now o) w

    begin-Lands :
        (o : Objects) (now : Time)
        → Facts C objects S cfg lo r o
        → Lands C objects S cfg lo r
            (phase_at o)
            (begun_at now o)
            (restore_into C lo cfg (key_of r.meta) (target_of r) (begin now))
    unfolding target_of
    begin-Lands o now facts =
        rest_lem C objects S cfg lo (begin now) unfinished now refl target (begun_at now o)
          (record { stored = put_self _ _ _; named = facts.named })

    start-Lands :
        (o : Objects) (st : Option Time)
        → r.status.started_at ≡ st
        → Facts C objects S cfg lo r o
        → Lands C objects S cfg lo r
            (phase_at o)
            o
            (start_if_unset C r st >>= restore_into C lo cfg (key_of r.meta) (target_of r))
    unfolding start_if_unset ◌>>=◌
    start-Lands o (some t) begun facts =
        rest_lem C objects S cfg lo r unfinished t begun target o facts
    start-Lands o none begun facts =
        Ends-bind {Mid = Begun o} (start_if_unset C r none) _
          (At-any C objects (world_machine C) C.now _ S.now-objects (λ now.
            At-update_restore_status C objects S (world_machine C) _ r _ facts.stored
              (Ends-pure _ (λ s h. (now, refl, h)))))
          (λ r'. record {
            at = λ w h. let (now, e, there) = h in rw e ((begin-Lands o now facts).at w there);
          })

    reconcile_restore-eq : reconcile_restore C lo cfg (key_of r.meta) r ≡ (
        start_if_unset C r r.status.started_at
        >>= restore_into C lo cfg (key_of r.meta) (target_of r))
    unfolding reconcile_restore
    reconcile_restore-eq = rw (unfinished, target) refl

    unfinished-Lands :
        (o : Objects)
        → Facts C objects S cfg lo r o
        → Lands C objects S cfg lo r (phase_at o) o (reconcile_restore C lo cfg (key_of r.meta) r)
    unfinished-Lands o facts =
        subst (Lands C objects S cfg lo r (phase_at o) o) (sym reconcile_restore-eq)
          (start-Lands o r.status.started_at refl facts)

  pub reconcile-eq :
      (k : NamespacedName) (w : C.World)
      → ignores lo cfg.namespaces cfg.exclude_namespaces k.namespace ≡ false
      → (reconcile C lo cfg k w).1
        ≡ ((do
          reply ← call C (C.get_restore k)
          r ← or_gone C reply
          reconcile_restore C lo cfg k r)
            w).1
  unfolding reconcile ◌>>=◌
  reconcile-eq k w watched = rw watched refl

  turns :
      (p : Phase) (r : PvcRestore) (w : C.World)
      → is_over p ≡ false
      → (objects w).restores (key_of r.meta) ≡ some r
      → str_eq (target_of r) "" ≡ false
      → phase_of r ((objects w).pvcs (target_key r)) ((objects w).jobs (key_of r.meta)) ≡ p
      → ((v : Pvc) → (objects w).pvcs (target_key r) ≡ some v → key_of v.meta ≡ target_key r)
      → ignores lo cfg.namespaces cfg.exclude_namespaces r.meta.namespace ≡ false
      → Stage (key_of r.meta) (advance p) (objects (reconcile C lo cfg (key_of r.meta) w).1)
  unfolding or_gone ◌>>=◌
  turns p r w going stored target phase named watched =
      rw (reconcile-eq (key_of r.meta) w watched) (
        Ends_state (λ w. Stage (key_of r.meta) (advance p) (objects w)) _
          (At-get_restore C objects S (world_machine C) (key_of r.meta) (some r) _ stored (
            subst
              (λ q.
                Lands C objects S cfg lo r q (objects w)
                  (reconcile_restore C lo cfg (key_of r.meta) r))
              phase
              (unfinished-Lands r (unfinished_of_phase r _ _ (ap is_over phase ∙ going)) target
                (objects w) (record { stored = stored; named = named }))))
          w (refl, tt))

  abbrev Turns : Phase → PvcRestore → C.World → NamespacedName → Type 0
  Turns p r w k =
      (objects w).restores k ≡ some r
      → phase_of r ((objects w).pvcs (target_key r)) ((objects w).jobs k) ≡ p
      → ignores lo cfg.namespaces cfg.exclude_namespaces k.namespace ≡ false
      → Stage k (advance p) (objects (reconcile C lo cfg k w).1)

  -- On an API that works, which nobody else writes to meanwhile, each reconcile of a restore that has
  -- not ended is one step of the abstract world_machine: one that is asked for has its Job afterwards (and
  -- both Job and PVC, where they are there, carry its mark), one whose Job runs stays where it is, one
  -- whose Job has completed has succeeded and its PVC carries no mark any more, and one that finds a
  -- PVC or a Job without its mark has failed. Conditions: its namespace is watched, it names a PVC,
  -- and the PVC, if it is there, is stored under its own name.
  pub restore-Stage :
      (k : NamespacedName) (p : Phase) (w : C.World)
      → Stage k p (objects w)
      → is_over p ≡ false
      → ignores lo cfg.namespaces cfg.exclude_namespaces k.namespace ≡ false
      → Stage k (advance p) (objects (reconcile C lo cfg k w).1)
  restore-Stage k p w stage going =
      subst (Turns p stage.restore w) stage.key
        (λ stored phase watched.
          turns p stage.restore w going stored stage.target phase stage.named watched)
        stage.stored stage.phase
