-- ===== src/Main/Program.antt =====
-- cmd/main.go: the start of the operator, and the registration of the reconcilers with the manager
-- (SetupWithManager in internal/controller).
use backsnap.Base.{ℕ, String, Bool, true, false, Option, none, some, [], ◌∷◌}
use backsnap.Go.Lo.{Lo}
use backsnap.Client.{Reply, ok, err}
use backsnap.Flags.{Flags, Setup, configure}
use backsnap.Backup.State.{Config}
use backsnap.Restore.Steps.{RestoreConfig}
use backsnap.Automatic.Requests.{AutomaticConfig, child_index}
use backsnap.Manager.{
  Runtime, Kind, Handler, Watch, resource_version_changed, Options, Controller,
  persistent_volume_claim, namespace, volume_snapshot, job, pvc_backup, pvc_restore, pvc_to_request,
  namespace_to_requests, automatic_creator, backup_reconciler, restore_reconciler,
}

-- `jobOwnerKey`
abbrev pub job_owner_key : String
job_owner_key = ".metadata.controller"

-- A program goes on with a value, or the process exits with a code.
pub data Outcome (A : Type 0) : Type 0 where
  goes_on : A → Outcome A
  exits : ℕ → Outcome A

abbrev pub on_change : Kind → Handler → Watch
on_change kind handler = record {
  kind = kind;
  handler = handler;
  predicates = resource_version_changed ∷ [];
}

abbrev pub automatic_controller : Controller
automatic_controller = record {
  named = some "automatic";
  primary = none;
  owns = [];
  watches =
      on_change persistent_volume_claim pvc_to_request
      ∷ on_change namespace namespace_to_requests
      ∷ [];
}

abbrev pub backup_controller : Controller
backup_controller = record {
  named = none;
  primary = some pvc_backup;
  owns = volume_snapshot ∷ persistent_volume_claim ∷ job ∷ [];
  watches = [];
}

abbrev pub restore_controller : Controller
restore_controller = record {
  named = none;
  primary = some pvc_restore;
  owns = persistent_volume_claim ∷ job ∷ [];
  watches = [];
}

-- `ctrl.Options` of `main`
abbrev pub options : Flags → Options
options f = record {
  metrics_bind_address = f.metrics_bind_address;
  health_probe_bind_address = f.health_probe_bind_address;
  leader_election = f.leader_elect;
  leader_election_id = "leader.backsnap.skyb.it";
  leader_election_release_on_cancel = true;
}

module _ (R : Runtime) where
  abbrev pub Program : Type 0 → Type 0
  Program A = R.System → Outcome A × R.System

  abbrev pub goes_on_with : {A B : Type 0} → Outcome A → (A → Program B) → Program B
  goes_on_with (goes_on a) f s = f a s
  goes_on_with (exits n) f s = (exits n, s)

  infixl 5 ◌>>=◌ ◌>>◌
  abbrev pub ◌>>=◌ : {A B : Type 0} → Program A → (A → Program B) → Program B
  ◌>>=◌ m f s = let (o, s') = m s in goes_on_with o f s'

  abbrev pub ◌>>◌ : {A B : Type 0} → Program A → Program B → Program B
  m >> k = m >>= λ _. k

  -- `if err != nil { setupLog.Error(...); os.Exit(1) }`
  abbrev pub outcome_of : {A : Type 0} → Reply R.Failure A → Outcome A
  outcome_of (ok a) = goes_on a
  outcome_of (err e) = exits 1

  abbrev pub or_exit : {A : Type 0} → (R.System → Reply R.Failure A × R.System) → Program A
  or_exit op s = let (r, s') = op s in (outcome_of r, s')

  -- An error that is passed on, or the next registration.
  abbrev pub then_register :
      Reply R.Failure Unit
      → (R.System → Reply R.Failure Unit × R.System)
      → R.System
      → Reply R.Failure Unit × R.System
  then_register (ok _) op s = op s
  then_register (err e) op s = (err e, s)

  -- `SetupWithManager` of the three reconcilers
  unfoldable pub setup_automatic :
      R.Manager → AutomaticConfig → R.System → Reply R.Failure Unit × R.System
  unfolding child_index
  setup_automatic mgr cfg s =
      let (indexed, s') =
        R.index_field mgr job_owner_key (child_index R.get_controller_of R.core_version) s in
      then_register indexed (R.complete mgr automatic_controller (automatic_creator cfg)) s'

  unfoldable pub setup_backup : R.Manager → Config → R.System → Reply R.Failure Unit × R.System
  setup_backup mgr cfg = R.complete mgr backup_controller (backup_reconciler cfg)

  unfoldable pub setup_restore :
      R.Manager → RestoreConfig → R.System → Reply R.Failure Unit × R.System
  setup_restore mgr cfg = R.complete mgr restore_controller (restore_reconciler cfg)

  -- `if !*manual { ... }`
  unfoldable pub setup_creator : Bool → R.Manager → AutomaticConfig → Program Unit
  unfolding setup_automatic
  setup_creator true mgr cfg s = (goes_on tt, s)
  setup_creator false mgr cfg s = or_exit (setup_automatic mgr cfg) s

  -- From the manager on.
  unfoldable pub operate : Flags → Setup → Program Unit
  unfolding setup_creator setup_backup setup_restore
  operate f setup = do
    mgr ← or_exit (R.new_manager (options f))
    setup_creator f.manual mgr setup.automatic
    or_exit (setup_backup mgr setup.backup)
    or_exit (setup_restore mgr setup.restore)
    or_exit (R.add_healthz_check mgr "healthz")
    or_exit (R.add_readyz_check mgr "readyz")
    or_exit (R.start mgr)

  -- log.Fatal exits with code 1 where a required flag is missing.
  unfoldable pub run_configured : Flags → Option Setup → Program Unit
  unfolding operate
  run_configured f none s = (exits 1, s)
  run_configured f (some setup) s = operate f setup s

  unfoldable pub main : Lo → Flags → Program Unit
  unfolding run_configured
  main lo f = run_configured f (configure lo f)
