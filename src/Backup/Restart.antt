-- ===== src/Backup/Restart.antt =====
-- The search for running backups after a restart of the operator.
use backsnap.Base.{◌≡◌, refl, ◌∙◌, String, Bool, not, ◌&&◌, ◌||◌, none, some}
use backsnap.Base.{List, [], ◌∷◌, inl, inr, elem, add, any, IsNodup, elem-add, add-IsNodup, arith}
use backsnap.Base.{Bool-cases, str_eq, if◌then◌else◌}
use backsnap.Go.Lo.{Lo, IsLawful}
use backsnap.Kube.{NamespacedName}
use backsnap.Api.{PvcBackup}
use backsnap.Client.{Client, ok, err}
use backsnap.Exec.{next, stop, failed, api, ◌>>=◌}
use backsnap.Backup.State.{Config, State, call, occupy, key_of, backup_qualified_name}
use backsnap.Backup.State.{backup_is_running}
use backsnap.Backup.Running.{mark_included, find_current_running_backups}
use backsnap.Backup.Reconcile.{find_if_none, find_when_unset, reconcile}

abbrev pub name_of : PvcBackup → String
name_of b = backup_qualified_name (key_of b.meta)

-- The backup runs, and its namespace is not excluded.
abbrev pub counts : List String → PvcBackup → Bool
counts exclude b = backup_is_running b && not (elem b.meta.namespace exclude)

-- The set that the loop makes of `rs`.
abbrev pub marked : List String → List PvcBackup → List String → List String
marked exclude [] rs = rs
marked exclude (b ∷ bs) rs = marked exclude bs (if counts exclude b then add (name_of b) rs else rs)

pub marked-elem :
    (exclude : List String) (bs : List PvcBackup) (rs : List String) (k : String)
    → elem k (marked exclude bs rs)
      ≡ (elem k rs || any (λ b. counts exclude b && str_eq (name_of b) k) bs)
marked-elem exclude [] rs k = ground arith
marked-elem exclude (b ∷ bs) rs k =
    marked-elem exclude bs (if counts exclude b then add (name_of b) rs else rs) k
    ∙ ground (arith, elem-add k (name_of b) rs)

pub marked-IsNodup :
    (exclude : List String) (bs : List PvcBackup) (rs : List String)
    → IsNodup rs
    → IsNodup (marked exclude bs rs)
marked-IsNodup exclude [] rs n = n
marked-IsNodup exclude (b ∷ bs) rs n =
    marked-IsNodup exclude bs (if counts exclude b then add (name_of b) rs else rs)
      (ground (arith, add-IsNodup (name_of b) rs))

module _ (C : Client) (lo : Lo) (cfg : Config) where
  abbrev pub at : C.World → List String → State C
  at w rs = record { world = w; current_running_backups = some rs }

  module _ (L : IsLawful lo) where
    mark_included-eq :
        (bs : List PvcBackup) (w : C.World) (rs : List String)
        → mark_included C lo cfg bs (at w rs)
          ≡ (next tt, at w (marked cfg.exclude_namespaces bs rs))
    unfolding mark_included occupy ◌>>=◌
    mark_included-eq [] w rs = refl
    mark_included-eq (b ∷ bs) w rs = elim (Bool-cases (backup_is_running b)) [
      | inl running ↦ elim (Bool-cases (elem b.meta.namespace cfg.exclude_namespaces)) [
        | inl excluded ↦ rw (running, L.contains-eq, excluded) (mark_included-eq bs w rs)
        | inr included ↦
            rw (running, L.contains-eq, included) (mark_included-eq bs w (add (name_of b) rs))
      ]
      | inr idle ↦ rw idle (mark_included-eq bs w rs)
    ]

    -- Where the operator watches all namespaces and the listing succeeds: the search ends with a
    -- set without duplicates that holds exactly the qualified names of the listed backups that
    -- have started, have not finished and are in no excluded namespace, whatever it held before.
    pub find_all :
        (s : State C) (bs : List PvcBackup)
        → cfg.namespaces ≡ "" ∷ []
        → (C.list_backups none s.world).0 ≡ ok bs
        → (rs : List String) × (find_current_running_backups C lo cfg s
            ≡ (next tt, at (C.list_backups none s.world).1 rs))
          × IsNodup rs
          × ((k : String)
              → elem k rs ≡ any (λ b. counts cfg.exclude_namespaces b && str_eq (name_of b) k) bs)
    unfolding find_current_running_backups call ◌>>=◌
    find_all s bs all listed = (
      marked cfg.exclude_namespaces bs [],
      rw (all, listed) (mark_included-eq bs _ []),
      marked-IsNodup cfg.exclude_namespaces bs [] tt,
      marked-elem cfg.exclude_namespaces bs [],
    )

  find_failed :
      (s : State C) (e : C.Failure)
      → cfg.namespaces ≡ "" ∷ []
      → s.current_running_backups ≡ none
      → (C.list_backups none s.world).0 ≡ err e
      → find_when_unset C lo cfg s ≡ (stop (failed (api e)), at (C.list_backups none s.world).1 [])
  unfolding find_when_unset find_if_none find_current_running_backups call ◌>>=◌
  find_failed s e all unset listed = rw (unset, find_if_none, all, listed) refl

  -- Where the operator watches all namespaces, its set is unset and the listing fails: the
  -- reconcile returns the error of the listing, and leaves an empty set, on which no later
  -- reconcile searches again. The backups that run already are then not counted.
  pub failed_search_is_final :
      (req : NamespacedName) (s : State C) (e : C.Failure)
      → cfg.namespaces ≡ "" ∷ []
      → s.current_running_backups ≡ none
      → (C.list_backups none s.world).0 ≡ err e
      → let after = reconcile C lo cfg req s in
        (after.0 ≡ failed (api e))
        × (after.1.current_running_backups ≡ some [])
        × (find_when_unset C lo cfg after.1 ≡ (next tt, after.1))
  unfolding reconcile find_when_unset find_if_none ◌>>=◌
  failed_search_is_final req s e all unset listed =
      rw (find_failed s e all unset listed) (refl, refl, refl)
