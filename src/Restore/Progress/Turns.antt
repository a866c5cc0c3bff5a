-- ===== src/Restore/Progress/Turns.antt =====
-- A restore over time: its reconciles, in any order with what the cluster and others do.
use backsnap.Base.{String}
use backsnap.Base.{
  ◌≡◌, refl, sym, ap, subst, ◌∙◌, true, false, Option, none, some, List, [], ◌∷◌, Bool-cases, inl,
  inr, arith,
}
use backsnap.Go.Time.{is_zero}
use backsnap.Go.Lo.{Lo}
use backsnap.Kube.{key_of, NamespacedName, Pvc, Job}
use backsnap.Api.{PvcRestore}
use backsnap.Client.{Client}
use backsnap.Client.Actions.{or_gone}
use backsnap.Client.Server.{Objects, IsServer, put, put_self}
use backsnap.Client.Machine.{At, world_machine}
use backsnap.Client.Machine.Gets.{At-get_restore}
use backsnap.Exec.{pure, empty_result, ◌>>=◌}
use backsnap.Exec.Ends.{Ends, Ends-pure, Ends_state}
use backsnap.Settings.{ignores}
use backsnap.Restore.Steps.{RestoreConfig, is_marked}
use backsnap.Restore.Reconcile.{reconcile_restore, reconcile}
use backsnap.Restore.Progress.Phase.{
  Phase, Stage, Freed, target_key, phase_of_job, phase_of, phase_of_pvc, phase_of_status, advance,
  is_over, asked, blocked, restoring, restored, succeeded, failed,
}
use backsnap.Restore.Progress.Refines.{restore-Stage, reconcile-eq}
use backsnap.Backup.Progress.Turns.{Turn, reconciles, serves, others, comes}

-- What the rest of the cluster does in time: it runs the Job.
abbrev pub serve : Phase → Phase
serve restoring = restored
serve p = p

abbrev pub turn : Turn → Phase → Phase
turn reconciles p = advance p
turn serves p = serve p
turn others p = p

-- The turns that a restore still waits for, and how it ends.
abbrev pub remaining : Phase → List Turn
remaining asked = reconciles ∷ serves ∷ reconciles ∷ []
remaining blocked = reconciles ∷ []
remaining restoring = serves ∷ reconciles ∷ []
remaining restored = reconciles ∷ []
remaining succeeded = []
remaining failed = []

abbrev pub end_of : Phase → Phase
end_of blocked = failed
end_of failed = failed
end_of _ = succeeded

turn-end_of : (t : Turn) (p : Phase) → end_of (turn t p) ≡ end_of p
turn-end_of reconciles asked = refl
turn-end_of serves asked = refl
turn-end_of others asked = refl
turn-end_of reconciles blocked = refl
turn-end_of serves blocked = refl
turn-end_of others blocked = refl
turn-end_of reconciles restoring = refl
turn-end_of serves restoring = refl
turn-end_of others restoring = refl
turn-end_of reconciles restored = refl
turn-end_of serves restored = refl
turn-end_of others restored = refl
turn-end_of reconciles succeeded = refl
turn-end_of serves succeeded = refl
turn-end_of others succeeded = refl
turn-end_of reconciles failed = refl
turn-end_of serves failed = refl
turn-end_of others failed = refl

turn-remaining :
    (t : Turn) (ts : List Turn) (p : Phase)
    → comes (remaining p) (t ∷ ts) ≡ true
    → comes (remaining (turn t p)) ts ≡ true
turn-remaining reconciles ts asked h = h
turn-remaining serves ts asked h = h
turn-remaining others ts asked h = h
turn-remaining reconciles ts blocked h = refl
turn-remaining serves ts blocked h = h
turn-remaining others ts blocked h = h
turn-remaining reconciles ts restoring h = h
turn-remaining serves ts restoring h = h
turn-remaining others ts restoring h = h
turn-remaining reconciles ts restored h = refl
turn-remaining serves ts restored h = h
turn-remaining others ts restored h = h
turn-remaining reconciles ts succeeded h = refl
turn-remaining serves ts succeeded h = refl
turn-remaining others ts succeeded h = refl
turn-remaining reconciles ts failed h = refl
turn-remaining serves ts failed h = refl
turn-remaining others ts failed h = refl

-- A restore that waits for nothing has ended.
remaining_none : (p : Phase) → comes (remaining p) [] ≡ true → p ≡ end_of p
remaining_none asked h = cc
remaining_none blocked h = cc
remaining_none restoring h = cc
remaining_none restored h = cc
remaining_none succeeded h = refl
remaining_none failed h = refl

over-advance : (p : Phase) → is_over p ≡ true → p ≡ advance p
over-advance asked h = cc
over-advance blocked h = cc
over-advance restoring h = cc
over-advance restored h = cc
over-advance succeeded h = refl
over-advance failed h = refl

unfinished-is_over :
    (r : PvcRestore) (v : Option Pvc) (j : Option Job) → is_over (phase_of_pvc r v j) ≡ false
unfinished-is_over r none none = refl
unfinished-is_over r none (some j) = ground arith
unfinished-is_over r (some v) none = ground arith
unfinished-is_over r (some v) (some j) = ground arith

finished_of_phase :
    (r : PvcRestore) (v : Option Pvc) (j : Option Job)
    → is_over (phase_of r v j) ≡ true
    → is_zero r.status.finished_at ≡ false
finished_of_phase r v j h = ground (arith, unfinished-is_over r v j)

serve-Freed : (p : Phase) (v : Option Pvc) → Freed p v → Freed (serve p) v
serve-Freed asked v h = tt
serve-Freed blocked v h = tt
serve-Freed restoring v h = tt
serve-Freed restored v h = tt
serve-Freed succeeded v h = h
serve-Freed failed v h = tt

serve-phase_of_status : (x : Option String) → phase_of_status x ≡ serve (phase_of_status x)
serve-phase_of_status none = refl
serve-phase_of_status (some x) = ground arith

serve-phase_of_job :
    (r : PvcRestore) (i j : Job)
    → j.meta ≡ i.meta
    → is_zero j.completion_time ≡ false
    → phase_of_job r (some j) ≡ serve (phase_of_job r (some i))
serve-phase_of_job r i j same complete = rw (same, complete) (ground arith)

serve-phase_of_pvc :
    (r : PvcRestore) (v : Option Pvc) (i j : Job)
    → j.meta ≡ i.meta
    → is_zero j.completion_time ≡ false
    → phase_of_pvc r v (some j) ≡ serve (phase_of_pvc r v (some i))
serve-phase_of_pvc r none i j same complete = serve-phase_of_job r i j same complete
serve-phase_of_pvc r (some v) i j same complete =
    elim (Bool-cases (is_marked v.meta.annotations r.meta.uid)) [
      | inl mine ↦ rw mine (serve-phase_of_job r i j same complete)
      | inr foreign ↦ rw foreign refl
    ]

serve-phase_of :
    (r : PvcRestore) (v : Option Pvc) (i j : Job)
    → j.meta ≡ i.meta
    → is_zero j.completion_time ≡ false
    → phase_of r v (some j) ≡ serve (phase_of r v (some i))
serve-phase_of r v i j same complete = elim (Bool-cases (is_zero r.status.finished_at)) [
  | inl e ↦ rw e (serve-phase_of_pvc r v i j same complete)
  | inr e ↦ rw e (serve-phase_of_status r.status.result)
]

module _ (C : Client) (objects : C.World → Objects) (k : NamespacedName) where
  -- From `w` to `w'` the restore moves on by `f`.
  pub record Moves (f : Phase → Phase) (w w' : C.World) : Type 0 where
    pub at : (p : Phase) → Stage k p (objects w) → Stage k (f p) (objects w')

  -- The Job completes.
  pub job-Moves :
      (i j : Job) (w w' : C.World)
      → (objects w).jobs k ≡ some i
      → j.meta ≡ i.meta
      → is_zero j.completion_time ≡ false
      → objects w' ≡ record (objects w) { jobs = put k (some j) (objects w).jobs }
      → Moves serve w w'
  job-Moves i j w w' there same complete made = record {
    at = λ p stage.
        let r = stage.restore in
        let n = target_key r in
        let pvcs : (objects w').pvcs n ≡ (objects w).pvcs n = ap (λ (z : Objects). z.pvcs n) made in
        let jobs : (objects w').jobs k ≡ some j =
          ap (λ (z : Objects). z.jobs k) made ∙ put_self _ _ _ in
        record {
          restore = r;
          key = stage.key;
          stored = ap (λ (z : Objects). z.restores k) made ∙ stage.stored;
          target = stage.target;
          phase =
              ap (λ x. phase_of r x ((objects w').jobs k)) pvcs
              ∙ (ap (λ y. phase_of r ((objects w).pvcs n) y) jobs
                  ∙ (serve-phase_of r ((objects w).pvcs n) i j same complete
                      ∙ ap serve
                          (ap (λ y. phase_of r ((objects w).pvcs n) y) (sym there) ∙ stage.phase)));
          named = λ v h. stage.named v (sym pvcs ∙ h);
          freed = serve-Freed p ((objects w').pvcs n) (subst (Freed p) (sym pvcs) stage.freed);
        };
  }

module _ (C : Client) (objects : C.World → Objects) (cfg : RestoreConfig) (lo : Lo)
    (k : NamespacedName) where
  pub data Run : C.World → List Turn → C.World → Type 0 where
    rests : {w : C.World} → Run w [] w
    reconciled :
        {w w' : C.World} {ts : List Turn}
        → Run (reconcile C lo cfg k w).1 ts w'
        → Run w (reconciles ∷ ts) w'
    served :
        {w m w' : C.World} {ts : List Turn}
        → Moves C objects k serve w m
        → Run m ts w'
        → Run w (serves ∷ ts) w'
    passed :
        {w m w' : C.World} {ts : List Turn}
        → Moves C objects k (λ p. p) w m
        → Run m ts w'
        → Run w (others ∷ ts) w'

module _ (C : Client) (objects : C.World → Objects) (S : IsServer C objects) (cfg : RestoreConfig)
    (lo : Lo) where
  settled-eq :
      (r : PvcRestore) (k : NamespacedName)
      → is_zero r.status.finished_at ≡ false
      → reconcile_restore C lo cfg k r ≡ pure empty_result
  unfolding reconcile_restore
  settled-eq r k finished = rw finished refl

  settled :
      (r : PvcRestore) (w : C.World)
      → (objects w).restores (key_of r.meta) ≡ some r
      → is_zero r.status.finished_at ≡ false
      → ignores lo cfg.namespaces cfg.exclude_namespaces r.meta.namespace ≡ false
      → objects (reconcile C lo cfg (key_of r.meta) w).1 ≡ objects w
  unfolding or_gone ◌>>=◌
  settled r w stored finished watched =
      rw (reconcile-eq C objects S cfg lo (key_of r.meta) w watched) (
        Ends_state (λ z. objects z ≡ objects w) _
          (At-get_restore C objects S (world_machine C) (key_of r.meta) (some r) _ stored (
            subst
              (λ m.
                Ends (λ e z. objects z ≡ objects w) (At C objects (world_machine C) (objects w))
                  (λ x z. objects z ≡ objects w) m)
              (sym (settled-eq r (key_of r.meta) finished)) (Ends-pure _ (λ z h. h.0))))
          w (refl, tt))

  module _ (k : NamespacedName)
      (watched : ignores lo cfg.namespaces cfg.exclude_namespaces k.namespace ≡ false) where
    -- A reconcile in any phase.
    any-Stage :
        (p : Phase) (w : C.World)
        → Stage k p (objects w)
        → Stage k (advance p) (objects (reconcile C lo cfg k w).1)
    any-Stage p w stage = elim (Bool-cases (is_over p)) [
      | inr going ↦ restore-Stage C objects S cfg lo k p w stage going watched
      | inl over ↦
          let finished = finished_of_phase stage.restore _ _ (ap is_over stage.phase ∙ over) in
          let same : objects (reconcile C lo cfg k w).1 ≡ objects w =
            subst
              (λ x.
                (objects w).restores x ≡ some stage.restore
                → ignores lo cfg.namespaces cfg.exclude_namespaces x.namespace ≡ false
                → objects (reconcile C lo cfg x w).1 ≡ objects w)
              stage.key (λ stored seen. settled stage.restore w stored finished seen) stage.stored
              watched in
          subst (Stage k (advance p)) (sym same)
            (subst (λ q. Stage k q (objects w)) (over-advance p over) stage)
    ]

    -- On an API that works, a restore ends: after every run in which the turns that it waits for come
    -- in their order (a reconcile, the cluster runs the Job, a reconcile), with any number of further
    -- turns of anybody between and behind them, a restore that was asked for has succeeded, and its
    -- PVC carries no mark; one that is blocked by a PVC or a Job without its mark has failed.
    -- Conditions: its namespace is watched, it names a PVC, which is stored under its own name if it
    -- is there, and the turns of the cluster and of others move the restore on as they should.
    pub restore_ends :
        {w w' : C.World} {ts : List Turn} (p : Phase)
        → Run C objects cfg lo k w ts w'
        → Stage k p (objects w)
        → comes (remaining p) ts ≡ true
        → Stage k (end_of p) (objects w')
    restore_ends {w} p rests stage fair =
        subst (λ q. Stage k q (objects w)) (remaining_none p fair) stage
    restore_ends {w' = w'} p (reconciled run) stage fair =
        subst (λ q. Stage k q (objects w')) (turn-end_of reconciles p)
          (restore_ends (advance p) run (any-Stage p _ stage) (turn-remaining reconciles _ p fair))
    restore_ends {w' = w'} p (served move run) stage fair =
        subst (λ q. Stage k q (objects w')) (turn-end_of serves p)
          (restore_ends (serve p) run (move.at p stage) (turn-remaining serves _ p fair))
    restore_ends {w' = w'} p (passed move run) stage fair =
        subst (λ q. Stage k q (objects w')) (turn-end_of others p)
          (restore_ends p run (move.at p stage) (turn-remaining others _ p fair))
