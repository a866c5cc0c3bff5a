-- ===== src/Backup/Progress/Turns.antt =====
-- A backup over time: its reconciles, in any order with what the cluster and the other backups do.
use backsnap.Base.{◌≡◌, String, Bool, true, false, List, [], ◌∷◌, ◌++◌, elem}
use backsnap.Base.{if◌then◌else◌}
use backsnap.Go.Lo.{Lo}
use backsnap.Kube.{NamespacedName, Pvc}
use backsnap.Client.{Client}
use backsnap.Client.Server.{Objects}
use backsnap.Backup.State.{Config, State, backup_qualified_name}
use backsnap.Backup.Reconcile.{reconcile}
use backsnap.Backup.Progress.Phase.{
  Phase, advance, serve, Stage, asked, snapshotting, ready, uploading, uploaded, finished, failed,
}

-- Who does the next step: the reconciler with this backup; the cluster, which makes the snapshot
-- or runs the Job; or somebody else, who leaves this backup and its objects alone.
pub data Turn : Type 0 where
  reconciles serves others : Turn

abbrev pub turn : Turn → Phase → Phase
turn reconciles p = advance p
turn serves p = serve p
turn others p = p

abbrev pub is_turn : Turn → Turn → Bool
is_turn reconciles reconciles = true
is_turn serves serves = true
is_turn others others = true
is_turn _ _ = false

-- The turns `want` come in `ts` in this order, with any others between them.
abbrev pub comes : List Turn → List Turn → Bool
comes [] ts = true
comes (w ∷ ws) [] = false
comes (w ∷ ws) (t ∷ ts) =
    let later = comes (w ∷ ws) ts in if is_turn w t then comes ws ts else later

-- The turns that a backup still waits for.
abbrev pub remaining : Phase → List Turn
remaining asked = reconciles ∷ serves ∷ reconciles ∷ serves ∷ reconciles ∷ []
remaining snapshotting = serves ∷ reconciles ∷ serves ∷ reconciles ∷ []
remaining ready = reconciles ∷ serves ∷ reconciles ∷ []
remaining uploading = serves ∷ reconciles ∷ []
remaining uploaded = reconciles ∷ []
remaining finished = []
remaining failed = []

module _ (C : Client) (objects : C.World → Objects) (k : NamespacedName) (pvc : Pvc) where
  -- From `s` to `s'` the backup moves on by `f`, and keeps the place that it has.
  pub record Moves (f : Phase → Phase) (s s' : State C) : Type 0 where
    pub at :
        (p : Phase) (rs : List String)
        → Stage C objects k pvc p rs s
        → (rs' : List String) × (elem (backup_qualified_name k) rs'
            ≡ elem (backup_qualified_name k) rs)
          × Stage C objects k pvc (f p) rs' s'

module _ (C : Client) (objects : C.World → Objects) (lo : Lo) (cfg : Config) (k : NamespacedName)
    (pvc : Pvc) where
  abbrev name : String
  name = backup_qualified_name k

  pub data Run : State C → List Turn → State C → Type 0 where
    rests : {s : State C} → Run s [] s
    reconciled :
        {s s' : State C} {ts : List Turn}
        → Run (reconcile C lo cfg k s).1 ts s'
        → Run s (reconciles ∷ ts) s'
    served :
        {s m s' : State C} {ts : List Turn}
        → Moves C objects k pvc serve s m
        → Run m ts s'
        → Run s (serves ∷ ts) s'
    passed :
        {s m s' : State C} {ts : List Turn}
        → Moves C objects k pvc (λ p. p) s m
        → Run m ts s'
        → Run s (others ∷ ts) s'

  -- The backup is finished at some point of a run, and has given its place back.
  pub record Finishes (s : State C) (ts : List Turn) (s' : State C) : Type 0 where
    pub turns : List Turn
    pub later : List Turn
    pub split : ts ≡ turns ++ later
    pub state : State C
    pub before : Run s turns state
    pub after : Run state later s'
    pub running : List String
    pub stage : Stage C objects k pvc finished running state
    pub place : elem name running ≡ false
