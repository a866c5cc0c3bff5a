-- ===== src/Settings/Env.antt =====
-- `resticEnv` of internal/controller/util.go: the environment of backup and restore containers.
use backsnap.Base.{String, ◌≡◌, ◌≢◌, ◌↔◌, refl, ap, Bool, true, false, not, ◌||◌, ◌&&◌, arith}
use backsnap.Base.{Option, none, some, List, [], ◌∷◌, ◌++◌, str_eq, eq_iff, elem, elem-append, any}
use backsnap.Base.{IsNodup, Bool-cases, inl, inr, map, if◌then◌else◌}
use backsnap.Base.Dict.{Dict, lookup}
use backsnap.Go.Lo.{Lo, IsLawful}
use backsnap.Go.Sort.{sort, elem-sort, sort-IsNodup}
use backsnap.Kube.{EnvVar}
use mathlib.Core.Option
use mathlib.Core.List.{append-nil, append_assoc}

-- `defaultResticEnv`
abbrev pub default_restic_env : Dict String
default_restic_env =
    ("BACKSNAP_RETRY_LOCK", "30m")
    ∷ ("BACKSNAP_CHECK_SUBSET", "10%")
    ∷ ("RESTIC_PROGRESS_FPS", "0.0166666")
    ∷ []

-- `extra[name]`, which is "" for a missing key.
abbrev pub value_of : Dict String → String → String
value_of d name = Option.get_or (lookup name d) ""

-- The loop over the sorted names.
append_extra : Lo → List EnvVar → Dict String → List String → List EnvVar → List EnvVar
append_extra lo managed extra [] env = env
append_extra lo managed extra (name ∷ names) env = append_extra lo managed extra names (
    if not (lo.contains_by EnvVar managed (λ e. str_eq e.name name))
    then env ++ record { name = name; value = value_of extra name } ∷ []
    else env)

-- `resticEnv`, from `s.ResticEnv`.
unfoldable pub restic_env : Lo → Dict String → List EnvVar → List EnvVar
unfolding append_extra
restic_env lo configured managed =
    let extra = lo.assign default_restic_env configured in
    let names = sort (lo.keys extra) in append_extra lo managed extra names managed

abbrev pub names_of : List EnvVar → List String
names_of = map (λ e. e.name)

-- The value that a container sees: that of the first variable of the name.
abbrev pub find_env : String → List EnvVar → Option String
find_env k [] = none
find_env k (e ∷ es) = if str_eq e.name k then some e.value else find_env k es

any-names : (k : String) (es : List EnvVar) → any (λ e. str_eq e.name k) es ≡ elem k (names_of es)
any-names k [] = refl
any-names k (e ∷ es) = ap (λ (b : Bool). str_eq e.name k || b) (any-names k es)

names-append : (es fs : List EnvVar) → names_of (es ++ fs) ≡ names_of es ++ names_of fs
names-append [] fs = refl
names-append (e ∷ es) fs = ap (λ (l : List String). e.name ∷ l) (names-append es fs)

find_env-append :
    (k : String) (es fs : List EnvVar)
    → find_env k (es ++ fs) ≡ Option.or_else (find_env k es) (find_env k fs)
unfolding Option.or_else
find_env-append k [] fs = refl
find_env-append k (e ∷ es) fs = ground (arith, find_env-append k es fs)

find_env-none :
    (k : String) (es : List EnvVar) → (elem k (names_of es) ≡ true) ↔ (find_env k es ≢ none)
find_env-none k [] = ground arith
find_env-none k (e ∷ es) = ground (arith, find_env-none k es)

-- What the loop appends.
abbrev additions : List EnvVar → Dict String → List String → List EnvVar
additions managed extra [] = []
additions managed extra (name ∷ names) =
    let rest = additions managed extra names in
    if elem name (names_of managed)
    then rest
    else record { name = name; value = value_of extra name } ∷ rest

find_env-additions :
    (managed : List EnvVar) (extra : Dict String) (k : String) (names : List String)
    → find_env k (additions managed extra names) ≡ (
        if elem k (names_of managed)
        then none
        else if elem k names
        then some (value_of extra k)
        else none)
find_env-additions managed extra k [] = ground arith
find_env-additions managed extra k (name ∷ names) =
    ground (arith, find_env-additions managed extra k names, eq_iff name k)

elem-additions :
    (managed : List EnvVar) (extra : Dict String) (k : String) (names : List String)
    → elem k (names_of (additions managed extra names))
      ≡ (elem k names && not (elem k (names_of managed)))
elem-additions managed extra k [] = refl
elem-additions managed extra k (name ∷ names) =
    ground (arith, elem-additions managed extra k names, eq_iff name k)

additions-IsNodup :
    (managed : List EnvVar) (extra : Dict String) (names : List String)
    → IsNodup names
    → IsNodup (names_of (additions managed extra names))
additions-IsNodup managed extra [] n = tt
additions-IsNodup managed extra (name ∷ names) n =
    ground (arith, additions-IsNodup managed extra names, elem-additions managed extra name names)

append-IsNodup :
    (es fs : List EnvVar)
    → IsNodup (names_of es)
    → IsNodup (names_of fs)
    → ((k : String) → elem k (names_of fs) ≡ true → elem k (names_of es) ≡ false)
    → IsNodup (names_of (es ++ fs))
append-IsNodup [] fs n m h = m
append-IsNodup (e ∷ es) fs n m h = (
  rw (names-append es fs, elem-append) (ground (arith, h e.name, eq_iff e.name e.name)),
  append-IsNodup es fs n.1 m (λ k p. ground (arith, h k p)),
)

module _ (lo : Lo) (L : IsLawful lo) (configured : Dict String) (managed : List EnvVar) where
  append_extra-eq :
      (extra : Dict String) (names : List String) (env : List EnvVar)
      → append_extra lo managed extra names env ≡ env ++ additions managed extra names
  unfolding append_extra
  append_extra-eq extra [] env = rw append-nil
  append_extra-eq extra (name ∷ names) env = rw (append_extra-eq extra names) (
      rw (L.contains_by-eq, any-names name managed)
        (elim (Bool-cases (elem name (names_of managed))) [
          | inl there ↦ rw there
          | inr absent ↦ rw absent (append_assoc env _ _)
        ]))

  restic_env-eq :
      let extra = lo.assign default_restic_env configured in
      restic_env lo configured managed ≡ managed ++ additions managed extra (sort (lo.keys extra))
  unfolding restic_env
  restic_env-eq = append_extra-eq _ _ managed

  -- In the environment of a restic container a name has the value that the operator gives it,
  -- else the one configured with -restic-env, else its default; other names are unset.
  pub find_env-restic_env :
      (k : String)
      → find_env k (restic_env lo configured managed)
        ≡ Option.or_else
            (find_env k managed)
            (Option.or_else (lookup k configured) (lookup k default_restic_env))
  unfolding Option.or_else
  find_env-restic_env k =
      let extra = lo.assign default_restic_env configured in
      rw (restic_env-eq, find_env-append, find_env-additions, elem-sort)
        (ground (
          arith,
          find_env-none k managed,
          L.lookup-assign default_restic_env configured k,
          L.keys-elem extra k,
        ))

  -- If the operator gives no name twice, then no name stands twice in the environment.
  pub restic_env-IsNodup :
      IsNodup (names_of managed) → IsNodup (names_of (restic_env lo configured managed))
  restic_env-IsNodup n =
      let extra = lo.assign default_restic_env configured in
      let names = sort (lo.keys extra) in
      rw restic_env-eq (
        append-IsNodup managed (additions managed extra names) n
          (additions-IsNodup managed extra names (sort-IsNodup _ (L.keys-IsNodup extra)))
          (λ k p. ground (arith, elem-additions managed extra k names)))
