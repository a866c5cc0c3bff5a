-- ===== src/Tests/Startup.antt =====
-- The theorem on the start of the operator, on a runtime that keeps a log.
use backsnap.Base.{◌≡◌, refl, ◌⊎◌, String, Bool, Option, none, some, List, [], ◌∷◌}
use backsnap.Client.{Reply, ok, err}
use backsnap.Flags.{Flags, default_flags, configure}
use backsnap.Manager.{Runtime, Kind}
use backsnap.Main.Program.{exits, main}
use backsnap.Main.Plan.{main-Performs}
use backsnap.Main.Acts.{
  Act, managed, indexed, registered, health_checked, ready_checked, started, IsLogged, Performs,
  plan, after, succeeds, IsMissing, IsGiven,
}
use backsnap.Tests.Helpers.{plain_lo}

abbrev Log : Type 0
Log = List (Act × Bool)

-- A controller cannot be registered for PVCRestores.
abbrev registers : Option Kind → Reply String Unit
registers (some Kind.pvc_restore) = err "no match for kind"
registers _ = ok tt

abbrev replies : {A : Type 0} → Act → Reply String A → Log → Reply String A × Log
replies a r l = (r, (a, succeeds r) ∷ l)

abbrev runtime : Runtime
runtime = record {
  System = Log;
  Failure = String;
  Manager = Unit;
  new_manager = λ o l. replies (managed o) (ok tt) l;
  get_controller_of = λ meta. none;
  core_version = "v1";
  index_field = λ m f index l. replies (indexed f index) (ok tt) l;
  complete = λ m c r l. replies (registered c r) (registers c.primary) l;
  add_healthz_check = λ m n l. replies (health_checked n) (ok tt) l;
  add_readyz_check = λ m n l. replies (ready_checked n) (ok tt) l;
  start = λ m l. replies started (ok tt) l;
}

runtime-IsLogged : IsLogged runtime (λ l. l)
runtime-IsLogged = record {
  new_manager-log = λ o s. refl;
  index_field-log = λ m f index s. refl;
  complete-log = λ m c r s. refl;
  add_healthz_check-log = λ m n s. refl;
  add_readyz_check-log = λ m n s. refl;
  start-log = λ m s. refl;
}

abbrev flags : Flags
unfolding default_flags
flags = record (default_flags "1.0") { s3_host = "s3.example.com"; s3_bucket = "backups" }

-- The manager is not started.
main-Performs_example :
    (IsMissing flags × (main runtime plain_lo flags [] ≡ (exits 1, [])))
    ⊎ (IsGiven flags
        × ((es : Log) × ((main runtime plain_lo flags []).1 ≡ after es [])
            × Performs (plan runtime plain_lo flags) es (main runtime plain_lo flags []).0))
main-Performs_example = main-Performs runtime (λ l. l) runtime-IsLogged plain_lo flags []

stops_at_restore : (main runtime plain_lo flags []).0 ≡ exits 1
unfolding main default_flags configure
stops_at_restore = refl
