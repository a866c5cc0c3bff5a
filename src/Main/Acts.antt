-- ===== src/Main/Acts.antt =====
-- What the start of the operator asks of controller-runtime, as a plan that is followed up to the
-- first failure.
use backsnap.Base.{◌≡◌, ◌≢◌, ◌⊎◌, String, Bool, true, false, List, [], ◌∷◌, ◌++◌, if◌then◌else◌}
use backsnap.Go.Lo.{Lo}
use backsnap.Client.{Reply, ok, err}
use backsnap.Api.{PvcBackup}
use backsnap.Flags.{Flags, Setup, watched, listed, backup_settings}
use backsnap.Automatic.Requests.{AutomaticConfig, child_index}
use backsnap.Manager.{
  Runtime, Options, Controller, Reconciler, automatic_creator, backup_reconciler,
  restore_reconciler,
}
use backsnap.Main.Program.{
  Outcome, goes_on, exits, options, job_owner_key, automatic_controller, backup_controller,
  restore_controller,
}

-- What the operator asks of the runtime.
pub data Act : Type 0 where
  managed : Options → Act
  indexed : String → (PvcBackup → List String) → Act
  registered : Controller → Reconciler → Act
  health_checked : String → Act
  ready_checked : String → Act
  started : Act

-- A required flag is missing, or none is.
abbrev pub IsMissing : Flags → Type 0
IsMissing f = (f.image ≡ "") ⊎ (f.s3_host ≡ "") ⊎ (f.s3_bucket ≡ "")

abbrev pub IsGiven : Flags → Type 0
IsGiven f = (f.image ≢ "") × (f.s3_host ≢ "") × (f.s3_bucket ≢ "")

-- The fields of the three reconcilers, from the flags.
abbrev pub setup_of : Lo → Flags → Setup
setup_of lo f = record {
  automatic = record {
    default_schedule = f.schedule;
    namespaces = watched lo f.namespaces;
    exclude_namespaces = listed lo f.exclude_namespaces;
  };
  backup = record {
    namespaces = watched lo f.namespaces;
    exclude_namespaces = listed lo f.exclude_namespaces;
    max_running_backups = f.max_running_backups;
    sleep_between_backups = f.sleep_between_backups;
    backup_settings = backup_settings f;
  };
  restore = record {
    namespaces = watched lo f.namespaces;
    exclude_namespaces = listed lo f.exclude_namespaces;
    backup_settings = backup_settings f;
  };
}

module _ (R : Runtime) where
  -- The index of the child backups, and the registration of their creator.
  abbrev pub child_indexed : Act
  child_indexed = indexed job_owner_key (child_index R.get_controller_of R.core_version)

  abbrev pub creator_plan : AutomaticConfig → List Act
  creator_plan cfg = child_indexed ∷ registered automatic_controller (automatic_creator cfg) ∷ []

  abbrev pub reconcilers_plan : Setup → List Act
  reconcilers_plan setup =
      registered backup_controller (backup_reconciler setup.backup)
      ∷ registered restore_controller (restore_reconciler setup.restore)
      ∷ health_checked "healthz"
      ∷ ready_checked "readyz"
      ∷ started
      ∷ []

  abbrev pub plan : Lo → Flags → List Act
  plan lo f =
      managed (options f)
      ∷ ((if f.manual then [] else creator_plan (setup_of lo f).automatic)
          ++ reconcilers_plan (setup_of lo f))

-- The plan is followed up to its first failure, with which the process exits.
pub data Performs : List Act → List (Act × Bool) → Outcome Unit → Type 0 where
  all_done : Performs [] [] (goes_on tt)
  goes_well :
      {a : Act} {acts : List Act} {es : List (Act × Bool)} {o : Outcome Unit}
      → Performs acts es o
      → Performs (a ∷ acts) ((a, true) ∷ es) o
  goes_wrong : {a : Act} {acts : List Act} → Performs (a ∷ acts) ((a, false) ∷ []) (exits 1)

abbrev pub succeeds : {F A : Type 0} → Reply F A → Bool
succeeds (ok _) = true
succeeds (err _) = false

-- A log, the latest entry first, with the entries added.
abbrev pub after : List (Act × Bool) → List (Act × Bool) → List (Act × Bool)
after [] l = l
after (e ∷ es) l = after es (e ∷ l)

-- The runtime logs what it is asked, and whether it went well.
pub record IsLogged (R : Runtime) (log : R.System → List (Act × Bool)) : Type 0 where
  pub new_manager-log :
      (o : Options) (s : R.System)
      → log (R.new_manager o s).1 ≡ (managed o, succeeds (R.new_manager o s).0) ∷ log s
  pub index_field-log :
      (m : R.Manager) (f : String) (index : PvcBackup → List String) (s : R.System)
      → log (R.index_field m f index s).1
        ≡ (indexed f index, succeeds (R.index_field m f index s).0) ∷ log s
  pub complete-log :
      (m : R.Manager) (c : Controller) (r : Reconciler) (s : R.System)
      → log (R.complete m c r s).1 ≡ (registered c r, succeeds (R.complete m c r s).0) ∷ log s
  pub add_healthz_check-log :
      (m : R.Manager) (n : String) (s : R.System)
      → log (R.add_healthz_check m n s).1
        ≡ (health_checked n, succeeds (R.add_healthz_check m n s).0) ∷ log s
  pub add_readyz_check-log :
      (m : R.Manager) (n : String) (s : R.System)
      → log (R.add_readyz_check m n s).1
        ≡ (ready_checked n, succeeds (R.add_readyz_check m n s).0) ∷ log s
  pub start-log :
      (m : R.Manager) (s : R.System)
      → log (R.start m s).1 ≡ (started, succeeds (R.start m s).0) ∷ log s
