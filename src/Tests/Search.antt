-- ===== src/Tests/Search.antt =====
-- The theorem on the search for running backups in a list of namespaces.
use backsnap.Base.{
  ◌≡◌, refl, String, none, some, List, [], ◌∷◌, elem, any, IsNodup, if◌then◌else◌, str_eq,
}
use backsnap.Base.Int.{pos}
use backsnap.Api.{PvcBackup}
use backsnap.Client.{Client, ok}
use backsnap.Client.Server.{Objects}
use backsnap.Exec.{next}
use backsnap.Backup.State.{Config, State}
use backsnap.Backup.Running.{all_namespaces, find_current_running_backups}
use backsnap.Backup.Restart.{at}
use backsnap.Backup.Listed.{runs_in, find_listed}
use backsnap.Tests.Helpers.{plain_lo, plain_lo-IsLawful}
use backsnap.Tests.Samples.{unset, finished_at, backup, config}
use backsnap.Tests.Store.{store}

-- In namespace `shop`, `first` runs and `second` has finished.
abbrev in_shop : String → List PvcBackup
in_shop n =
    if str_eq n "shop"
    then backup "first" 1 (record unset { started_at = some (pos 2) })
      ∷ backup "second" 1 (finished_at 3)
      ∷ []
    else []

abbrev listing : Client
listing = record store {
  list_backups = λ n w. (ok (elim n [ none ↦ [] | some namespace ↦ in_shop namespace ]), w);
}

abbrev two_namespaces : Config
two_namespaces = record config { namespaces = "shop" ∷ "kube-system" ∷ [] }

abbrev restarted : State listing
restarted = record {
  world = record {
    backups = λ k. none;
    restores = λ k. none;
    namespaces = λ n. none;
    pvcs = λ k. none;
    snapshots = λ k. none;
    jobs = λ k. none;
  };
  current_running_backups = none;
}

find_listed_example :
    (w : Objects) × (rs : List String) × (find_current_running_backups listing plain_lo
        two_namespaces restarted
      ≡ (next tt, at listing plain_lo two_namespaces w rs))
    × IsNodup rs
    × ((k : String)
        → elem k rs ≡ any (runs_in ("kube-system" ∷ []) in_shop k) ("shop" ∷ "kube-system" ∷ []))
unfolding all_namespaces
find_listed_example =
    find_listed listing plain_lo two_namespaces plain_lo-IsLawful in_shop (λ n w. refl) restarted
      refl
