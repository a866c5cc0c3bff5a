-- ===== src/Flags.antt =====
-- cmd/main.go: how the flags become the settings of the reconcilers.
use backsnap.Base.{
  ℕ, suc, ◌≡◌, ◌≢◌, refl, sym, ap, map, String, ◌<>◌, Bool, true, false, not, ◌||◌, Option, none,
  some,
}
use backsnap.Base.{List, [], ◌∷◌, str_eq, eq_iff, elem, filter, length, ltb, if◌then◌else◌, arith}
use backsnap.Base.Int.{ℤ, pos}
use backsnap.Base.Dict.{Dict, lookup, insert, lookup-insert}
use backsnap.Go.Lo.{Lo, IsLawful}
use backsnap.Go.Strings.{split_commas, trim_space, cut_equals, HasNoEquals, cut_equals-append}
use backsnap.Kube.{ResourceRequirements}
use backsnap.Settings.{BackupSettings}
use backsnap.Backup.State.{Config}
use backsnap.Backup.Running.{all_namespaces}
use backsnap.Restore.Steps.{RestoreConfig}
use backsnap.Automatic.Requests.{AutomaticConfig}

-- The flags, as they are given or by default.
pub record Flags : Type 0 where
  pub metrics_bind_address : String
  pub health_probe_bind_address : String
  pub leader_elect : Bool
  pub namespaces : String
  pub exclude_namespaces : String
  pub schedule : String
  pub manual : Bool
  pub max_running_backups : ℤ
  pub sleep_between_backups : ℤ
  pub snapshotclass : String
  pub storageclass : String
  pub backup_storageclass : String
  pub restore_storageclass : String
  pub imagepullsecret : String
  pub image : String
  pub s3_host : String
  pub s3_bucket : String
  pub s3_access_key_id : String
  pub s3_secret_access_key : String
  pub restic_password : String
  pub restic_old_password : String
  pub restic_env : Dict String
  pub restic_resources : ResourceRequirements

-- `resourcesFlag.Set`, with the YAML parser; `none` is its error.
unfoldable pub set_resources :
    (String → Option ResourceRequirements)
    → ResourceRequirements
    → String
    → Option ResourceRequirements
set_resources unmarshal_strict f s = unmarshal_strict s

-- `keyValueFlag.Set`; `none` is its error.
unfoldable pub set_key_value : Dict String → String → Option (Dict String)
unfolding cut_equals insert
set_key_value f s = elim (cut_equals s) [
  | none ↦ none
  | some (key, value) ↦ some (insert key value f)
]

-- `defaultResticImage`, from the version.
unfoldable pub default_restic_image : String → String
default_restic_image version =
    if str_eq version ""
    then "sjorsgielen/backsnap-restic:latest"
    else "sjorsgielen/backsnap-restic:v" <> version

-- The flags where none is given.
unfoldable pub default_flags : String → Flags
unfolding default_restic_image
default_flags version = record {
  metrics_bind_address = ":8080";
  health_probe_bind_address = ":8081";
  leader_elect = false;
  namespaces = "";
  exclude_namespaces = "";
  schedule = "@daily";
  manual = false;
  max_running_backups = pos 1;
  sleep_between_backups = pos 30;
  snapshotclass = "";
  storageclass = "";
  backup_storageclass = "";
  restore_storageclass = "";
  imagepullsecret = "";
  image = default_restic_image version;
  s3_host = "";
  s3_bucket = "";
  s3_access_key_id = "";
  s3_secret_access_key = "";
  restic_password = "";
  restic_old_password = "";
  restic_env = [];
  restic_resources = record {
    limits = [];
    requests = ("memory", record { text = "128Mi" }) ∷ ("cpu", record { text = "20m" }) ∷ [];
  };
}

-- Drop "" where more is listed, and put it back where nothing is left.
abbrev or_all : List String → List String
or_all [] = "" ∷ []
or_all (n ∷ ns) = n ∷ ns

abbrev drop_empty : Lo → List String → List String
drop_empty lo ns =
    if ltb 1 (length ns) then lo.filter_with String ns (λ item _. not (str_eq item "")) else ns

-- The namespaces of a comma-separated flag.
unfoldable pub listed : Lo → String → List String
listed lo flag = lo.map_with String String (split_commas flag) (λ s _. trim_space s)

-- The namespaces to watch.
unfoldable pub watched : Lo → String → List String
watched lo flag = or_all (drop_empty lo (listed lo flag))

unfoldable pub backup_settings : Flags → BackupSettings
backup_settings f = record {
  snapshot_class = f.snapshotclass;
  storage_class = f.storageclass;
  backup_storage_class = f.backup_storageclass;
  restore_storage_class = f.restore_storageclass;
  image_pull_secret = f.imagepullsecret;
  image = f.image;
  s3_host = f.s3_host;
  s3_bucket = f.s3_bucket;
  s3_access_key_id = f.s3_access_key_id;
  s3_secret_access_key = f.s3_secret_access_key;
  restic_password = f.restic_password;
  restic_old_password = f.restic_old_password;
  restic_env = f.restic_env;
  restic_resources = f.restic_resources;
}

-- The fields that `main` gives to the three reconcilers.
pub record Setup : Type 0 where
  pub automatic : AutomaticConfig
  pub backup : Config
  pub restore : RestoreConfig

-- `requiredFlag`: the flag has a value.
abbrev is_given : String → Bool
is_given value = not (str_eq value "")

-- `none` is the fatal error of a required flag that is missing.
unfoldable pub configure : Lo → Flags → Option Setup
unfolding watched listed backup_settings
configure lo f =
    if not (is_given f.image) || not (is_given f.s3_host) || not (is_given f.s3_bucket)
    then none
    else some (record {
      automatic = record {
        default_schedule = f.schedule;
        namespaces = watched lo f.namespaces;
        exclude_namespaces = listed lo f.exclude_namespaces;
      };
      backup = record {
        max_running_backups = f.max_running_backups;
        sleep_between_backups = f.sleep_between_backups;
        namespaces = watched lo f.namespaces;
        exclude_namespaces = listed lo f.exclude_namespaces;
        backup_settings = backup_settings f;
      };
      restore = record {
        namespaces = watched lo f.namespaces;
        exclude_namespaces = listed lo f.exclude_namespaces;
        backup_settings = backup_settings f;
      };
    })

elem-filter :
    (k : String) (ns : List String)
    → elem k (filter (λ n. not (str_eq n "")) ns) ≡ (if str_eq k "" then false else elem k ns)
elem-filter k [] = ground arith
elem-filter k (n ∷ ns) = ground (arith, elem-filter k ns, eq_iff n "", eq_iff n k, eq_iff k "")

-- What becomes of the listed namespaces.
abbrev cleaned : List String → List String
cleaned ns = or_all (if ltb 1 (length ns) then filter (λ n. not (str_eq n "")) ns else ns)

-- "" stands in the list only as its one item, and the other names are those of `ns`.
abbrev IsClean : List String → List String → Type 0
IsClean ns ms = (elem "" ms ≡ all_namespaces ms) × ((k : String) → k ≢ "" → elem k ms ≡ elem k ns)

or_all-IsClean :
    (ns fs : List String)
    → ((k : String) → elem k fs ≡ (if str_eq k "" then false else elem k ns))
    → IsClean ns (or_all fs)
unfolding all_namespaces
or_all-IsClean ns [] h =
    (ground (arith, eq_iff "" ""), λ k named. ground (arith, h k, eq_iff k "", eq_iff "" k))
or_all-IsClean ns (f ∷ []) h =
    (ground (arith, h "", eq_iff "" ""), λ k named. ground (arith, h k, eq_iff k ""))
or_all-IsClean ns (f ∷ g ∷ fs) h =
    (ground (arith, h "", eq_iff "" ""), λ k named. ground (arith, h k, eq_iff k ""))

more_than_one : (n : ℕ) → ltb 1 (suc (suc n)) ≡ true
more_than_one n = ground arith

cleaned-IsClean : (ns : List String) → IsClean ns (cleaned ns)
unfolding all_namespaces
cleaned-IsClean [] = (ground (arith, eq_iff "" ""), λ k named. ground (arith, eq_iff "" k))
cleaned-IsClean (n ∷ []) = (ground arith, λ k named. refl)
cleaned-IsClean (n ∷ m ∷ ns) =
    rw (more_than_one (length ns)) (or_all-IsClean (n ∷ m ∷ ns) _ (λ k. elem-filter k (n ∷ m ∷ ns)))

module _ (lo : Lo) (L : IsLawful lo) (flag : String) where
  watched-eq : watched lo flag ≡ cleaned (listed lo flag)
  unfolding watched
  watched-eq =
      ap
        (λ (ns : List String).
          or_all (if ltb 1 (length (listed lo flag)) then ns else listed lo flag))
        (L.filter_with-eq String (listed lo flag) (λ item. not (str_eq item "")))

  -- Whatever -namespaces is, the list of namespaces to watch holds "" only as its one item, so
  -- that the two tests for "all namespaces" in the reconcilers agree, and it holds another name if
  -- and only if that name stands in the flag between two commas, up to spaces around it.
  pub watched_lem :
      (elem "" (watched lo flag) ≡ all_namespaces (watched lo flag))
      × ((k : String)
          → k ≢ ""
          → elem k (watched lo flag) ≡ elem k (map trim_space (split_commas flag)))
  unfolding listed
  watched_lem =
      rw (watched-eq, sym (L.map_with-eq String String (split_commas flag) trim_space))
        (cleaned-IsClean (listed lo flag))

-- After `-restic-env KEY=VALUE` with a key without "=", the key has that value, "=" in the value
-- included, and the other keys have the values that they had.
pub set_key_value_lem :
    (f : Dict String) (key value : String)
    → HasNoEquals key
    → (g : Dict String) × (set_key_value f (key <> ("=" <> value)) ≡ some g)
      × ((k : String) → lookup k g ≡ (if str_eq key k then some value else lookup k f))
unfolding set_key_value
set_key_value_lem f key value h = (
  insert key value f,
  rw (set_key_value, cut_equals-append key value h) refl,
  λ k. lookup-insert key k value f,
)
