-- ===== src/Backup/Listed.antt =====
-- The search for running backups after a restart, where a list of namespaces is watched.
use backsnap.Base.{
  ◌≡◌, refl, ◌∙◌, String, Bool, false, not, ◌&&◌, ◌||◌, some, List, [], ◌∷◌, inl, inr, elem, add,
  any, IsNodup, arith, Bool-cases, str_eq, if◌then◌else◌,
}
use backsnap.Go.Lo.{Lo, IsLawful}
use backsnap.Api.{PvcBackup}
use backsnap.Client.{Client, ok}
use backsnap.Exec.{next, ◌>>=◌}
use backsnap.Backup.State.{Config, State, call, occupy, backup_is_running}
use backsnap.Backup.Running.{all_namespaces, mark, find_in, find_current_running_backups}
use backsnap.Backup.Restart.{name_of, marked, marked-elem, marked-IsNodup, counts, at}

-- A running backup of the name.
abbrev pub runs_as : String → PvcBackup → Bool
runs_as k b = backup_is_running b && str_eq (name_of b) k

counts-runs_as :
    (k : String) (bs : List PvcBackup)
    → any (λ b. counts [] b && str_eq (name_of b) k) bs ≡ any (runs_as k) bs
counts-runs_as k [] = refl
counts-runs_as k (b ∷ bs) = ground (arith, counts-runs_as k bs)

module _ (exclude : List String) (list : String → List PvcBackup) where
  -- The set that the loop over the namespaces makes of `rs`.
  abbrev gathered : List String → List String → List String
  gathered [] rs = rs
  gathered (n ∷ ns) rs = gathered ns (if elem n exclude then rs else marked [] (list n) rs)

  -- A running backup of the name in a namespace that is not excluded.
  abbrev pub runs_in : String → String → Bool
  runs_in k n = not (elem n exclude) && any (runs_as k) (list n)

  gathered-elem :
      (ns rs : List String) (k : String)
      → elem k (gathered ns rs) ≡ (elem k rs || any (runs_in k) ns)
  gathered-elem [] rs k = ground arith
  gathered-elem (n ∷ ns) rs k =
      gathered-elem ns (if elem n exclude then rs else marked [] (list n) rs) k
      ∙ ground (arith, marked-elem [] (list n) rs k, counts-runs_as k (list n))

  gathered-IsNodup : (ns rs : List String) → IsNodup rs → IsNodup (gathered ns rs)
  gathered-IsNodup [] rs h = h
  gathered-IsNodup (n ∷ ns) rs h =
      gathered-IsNodup ns (if elem n exclude then rs else marked [] (list n) rs)
        (ground (arith, marked-IsNodup [] (list n) rs))

module _ (C : Client) (lo : Lo) (cfg : Config) (L : IsLawful lo) where
  mark-eq :
      (bs : List PvcBackup) (w : C.World) (rs : List String)
      → mark C lo cfg bs (at C lo cfg w rs) ≡ (next tt, at C lo cfg w (marked [] bs rs))
  unfolding mark occupy ◌>>=◌
  mark-eq [] w rs = refl
  mark-eq (b ∷ bs) w rs = elim (Bool-cases (backup_is_running b)) [
    | inl running ↦ rw running (mark-eq bs w (add (name_of b) rs))
    | inr idle ↦ rw idle (mark-eq bs w rs)
  ]

  module _ (list : String → List PvcBackup)
      (listed : (n : String) (w : C.World) → (C.list_backups (some n) w).0 ≡ ok (list n)) where
    find_in-eq :
        (ns : List String) (w : C.World) (rs : List String)
        → (w' : C.World) × (find_in C lo cfg ns (at C lo cfg w rs)
            ≡ (next tt, at C lo cfg w' (gathered cfg.exclude_namespaces list ns rs)))
    unfolding find_in call ◌>>=◌
    find_in-eq [] w rs = (w, refl)
    find_in-eq (n ∷ ns) w rs = elim (Bool-cases (elem n cfg.exclude_namespaces)) [
      | inl excluded ↦ rw (L.contains-eq, excluded) (find_in-eq ns w rs)
      | inr included ↦
          rw (L.contains-eq, included, listed, mark-eq)
            (find_in-eq ns (C.list_backups (some n) w).1 (marked [] (list n) rs))
    ]

    -- Where the operator watches a list of namespaces and every listing of a namespace succeeds,
    -- with the same backups each time: the search ends with a set without duplicates that holds
    -- exactly the qualified names of the backups that have started and have not finished, in those
    -- of the namespaces that are not excluded, whatever it held before.
    pub find_listed :
        (s : State C)
        → all_namespaces cfg.namespaces ≡ false
        → (w : C.World) × (rs : List String) × (find_current_running_backups C lo cfg s
            ≡ (next tt, at C lo cfg w rs))
          × IsNodup rs
          × ((k : String) → elem k rs ≡ any (runs_in cfg.exclude_namespaces list k) cfg.namespaces)
    unfolding find_current_running_backups ◌>>=◌
    find_listed s named =
        let (w, e) = find_in-eq cfg.namespaces s.world [] in
        (
          w,
          gathered cfg.exclude_namespaces list cfg.namespaces [],
          rw named e,
          gathered-IsNodup cfg.exclude_namespaces list cfg.namespaces [] tt,
          gathered-elem cfg.exclude_namespaces list cfg.namespaces [],
        )
