-- ===== src/Main/Plan.antt =====
-- The steps in which the operator starts, as a plan that is followed up to the first failure.
use backsnap.Base.{
  ◌≡◌, refl, ap, arith, ◌∙◌, ◌⊎◌, inl, inr, eq_iff, Bool, true, false, none, some, List, [], ◌∷◌,
  ◌++◌, if◌then◌else◌,
}
use backsnap.Go.Lo.{Lo}
use backsnap.Client.{Reply, ok, err}
use backsnap.Flags.{Flags, configure}
use backsnap.Automatic.Requests.{AutomaticConfig, child_index}
use backsnap.Manager.{Runtime, automatic_creator}
use backsnap.Main.Program.{
  Outcome, exits, options, job_owner_key, automatic_controller, backup_controller,
  restore_controller, or_exit, goes_on_with, outcome_of, then_register, setup_backup, setup_restore,
  setup_creator, operate, run_configured, main,
}
use backsnap.Main.Acts.{
  Act, registered, IsMissing, IsGiven, setup_of, child_indexed, creator_plan, plan, Performs,
  goes_well, goes_wrong, all_done, succeeds, after, IsLogged,
}
use backsnap.Main.Program

configure_cases :
    (lo : Lo) (f : Flags)
    → (IsMissing f × (configure lo f ≡ none))
      ⊎ (IsGiven f × (configure lo f ≡ some (setup_of lo f)))
unfolding configure
configure_cases lo f = ground (arith, eq_iff f.image "", eq_iff f.s3_host "", eq_iff f.s3_bucket "")

module _ (R : Runtime) (log : R.System → List (Act × Bool)) where
  -- Where a program may be: what it has logged since the log was `l` follows the plan.
  abbrev Follows : List Act → List (Act × Bool) → Outcome Unit × R.System → Type 0
  Follows acts l (o, s') = (es : List (Act × Bool)) × (log s' ≡ after es l) × Performs acts es o

  record Runs (acts : List Act) (m : Program.Program R Unit) : Type 0 where
    pub at : (s : R.System) → Follows acts (log s) (m s)

  step_lem :
      {A : Type 0} (a : Act) (acts : List Act) (r : Reply R.Failure A) (s s' : R.System)
      (k : A → Program.Program R Unit)
      → log s' ≡ (a, succeeds r) ∷ log s
      → ((x : A) → Runs acts (k x))
      → Follows (a ∷ acts) (log s) (goes_on_with R (outcome_of R r) k s')
  step_lem a acts (ok x) s s' k e h =
      let (es, e', p) = (h x).at s' in ((a, true) ∷ es, e' ∙ ap (after es) e, goes_well p)
  step_lem a acts (err x) s s' k e h = ((a, false) ∷ [], e, goes_wrong)

  Runs-step :
      {A : Type 0} (a : Act) (acts : List Act) (op : R.System → Reply R.Failure A × R.System)
      (k : A → Program.Program R Unit)
      → ((s : R.System) → log (op s).1 ≡ (a, succeeds (op s).0) ∷ log s)
      → ((x : A) → Runs acts (k x))
      → Runs (a ∷ acts) (Program.◌>>=◌ R (or_exit R op) k)
  Runs-step a acts op k e h = record { at = λ s. step_lem a acts (op s).0 s (op s).1 k (e s) h }

  last_lem :
      (a : Act) (r : Reply R.Failure Unit) (s s' : R.System)
      → log s' ≡ (a, succeeds r) ∷ log s
      → Follows (a ∷ []) (log s) (outcome_of R r, s')
  last_lem a (ok x) s s' e = ((a, true) ∷ [], e, goes_well all_done)
  last_lem a (err x) s s' e = ((a, false) ∷ [], e, goes_wrong)

  Runs-last :
      (a : Act) (op : R.System → Reply R.Failure Unit × R.System)
      → ((s : R.System) → log (op s).1 ≡ (a, succeeds (op s).0) ∷ log s)
      → Runs (a ∷ []) (or_exit R op)
  Runs-last a op e = record { at = λ s. last_lem a (op s).0 s (op s).1 (e s) }

  module _ (L : IsLogged R log) where
    register_lem :
        (mgr : R.Manager) (cfg : AutomaticConfig) (acts : List Act) (r : Reply R.Failure Unit)
        (s s' : R.System) (k : Unit {0} → Program.Program R Unit)
        → log s' ≡ (child_indexed R, succeeds r) ∷ log s
        → ((x : Unit {0}) → Runs acts (k x))
        → let z =
            then_register R r (R.complete mgr automatic_controller (automatic_creator cfg)) s' in
          Follows (creator_plan R cfg ++ acts) (log s) (goes_on_with R (outcome_of R z.0) k z.1)
    register_lem mgr cfg acts (ok x) s s' k e h =
        let c = R.complete mgr automatic_controller (automatic_creator cfg) s' in
        let (es, e', p) =
          step_lem (registered automatic_controller (automatic_creator cfg)) acts c.0 s' c.1 k
            (L.complete-log mgr automatic_controller (automatic_creator cfg) s') h in
        ((child_indexed R, true) ∷ es, e' ∙ ap (after es) e, goes_well p)
    register_lem mgr cfg acts (err x) s s' k e h = ((child_indexed R, false) ∷ [], e, goes_wrong)

    Runs-creator :
        (manual : Bool) (mgr : R.Manager) (cfg : AutomaticConfig) (acts : List Act)
        (k : Unit {0} → Program.Program R Unit)
        → ((x : Unit {0}) → Runs acts (k x))
        → Runs
            ((if manual then [] else creator_plan R cfg) ++ acts)
            (Program.◌>>=◌ R (setup_creator R manual mgr cfg) k)
    unfolding setup_creator
    Runs-creator true mgr cfg acts k h = record { at = (h tt).at }
    Runs-creator false mgr cfg acts k h = record {
      at = λ s.
          let index = child_index R.get_controller_of R.core_version in
          let i = R.index_field mgr job_owner_key index s in
          register_lem mgr cfg acts i.0 s i.1 k (L.index_field-log mgr job_owner_key index s) h;
    }

    operate-Runs : (lo : Lo) (f : Flags) → Runs (plan R lo f) (operate R f (setup_of lo f))
    unfolding operate setup_backup setup_restore
    operate-Runs lo f = Runs-step _ _ _ _ (L.new_manager-log (options f)) λ mgr.
        Runs-creator f.manual mgr _ _ _ λ _.
          Runs-step _ _ _ _ (L.complete-log mgr backup_controller _) λ _.
            Runs-step _ _ _ _ (L.complete-log mgr restore_controller _) λ _.
              Runs-step _ _ _ _ (L.add_healthz_check-log mgr "healthz") λ _.
                Runs-step _ _ _ _ (L.add_readyz_check-log mgr "readyz")
                  λ _. Runs-last _ _ (L.start-log mgr)

    -- With -image, -s3-host or -s3-bucket empty the operator exits with code 1 and asks nothing of
    -- the runtime, which logs what it is asked. Else it starts by the plan that the flags give: it makes the manager, unless
    -- -manual is given indexes the child backups and registers their creator, registers the two
    -- reconcilers, adds the two health checks and starts the manager, each step only when all
    -- steps before it went well; `main` returns when all of them did, and exits with code 1 right
    -- after the first that did not.
    pub main-Performs :
        (lo : Lo) (f : Flags) (s : R.System)
        → (IsMissing f × (main R lo f s ≡ (exits 1, s)))
          ⊎ (IsGiven f
              × ((es : List (Act × Bool)) × (log (main R lo f s).1 ≡ after es (log s))
                  × Performs (plan R lo f) es (main R lo f s).0))
    unfolding main run_configured
    main-Performs lo f s = elim (configure_cases lo f) [
      | inl (missing, e) ↦ inl (missing, rw e refl)
      | inr (given, e) ↦ inr (given, rw e ((operate-Runs lo f).at s))
    ]
