-- ===== src/Backup/Progress/Fair.antt =====
-- What comes of a run in which everybody has the turns that a backup waits for.
use backsnap.Base.{
  ◌≡◌, ◌≢◌, refl, sym, ap, ◌∙◌, String, true, false, List, [], ◌∷◌, add, remove, elem, elem-add,
  elem-remove, eq_iff, arith,
}
use backsnap.Go.Lo.{Lo}
use backsnap.Kube.{NamespacedName, Pvc}
use backsnap.Client.{Client}
use backsnap.Client.Server.{Objects, IsServer}
use backsnap.Settings.{ignores}
use backsnap.Backup.State.{Config, State, backup_qualified_name}
use backsnap.Backup.Reconcile.{reconcile}
use backsnap.Backup.Progress.Phase.{
  Phase, advance, serve, is_over, places, Stage, asked, snapshotting, ready, uploading, uploaded,
  finished, failed,
}
use backsnap.Backup.Progress.Refines.{admits, reconcile-Stage}
use backsnap.Backup.Progress.Turns.{
  Turn, reconciles, serves, others, turn, comes, remaining, Moves, Run, rests, reconciled, served,
  passed, Finishes,
}

true-ne-false : true ≢ false
true-ne-false h = cc

turn-remaining :
    (t : Turn) (ts : List Turn) (p : Phase)
    → is_over p ≡ false
    → comes (remaining p) (t ∷ ts) ≡ true
    → comes (remaining (turn t p)) ts ≡ true
turn-remaining reconciles ts asked g h = h
turn-remaining serves ts asked g h = h
turn-remaining others ts asked g h = h
turn-remaining reconciles ts snapshotting g h = h
turn-remaining serves ts snapshotting g h = h
turn-remaining others ts snapshotting g h = h
turn-remaining reconciles ts ready g h = h
turn-remaining serves ts ready g h = h
turn-remaining others ts ready g h = h
turn-remaining reconciles ts uploading g h = h
turn-remaining serves ts uploading g h = h
turn-remaining others ts uploading g h = h
turn-remaining reconciles ts uploaded g h = refl
turn-remaining serves ts uploaded g h = h
turn-remaining others ts uploaded g h = h
turn-remaining _ ts finished g h = cc
turn-remaining _ ts failed g h = cc

module _ (C : Client) (objects : C.World → Objects) (lo : Lo) (cfg : Config) (k : NamespacedName)
    (pvc : Pvc) where
  abbrev name : String
  name = backup_qualified_name k

  reconcile-Finishes :
      {s s' : State C} {ts : List Turn}
      → Finishes C objects lo cfg k pvc (reconcile C lo cfg k s).1 ts s'
      → Finishes C objects lo cfg k pvc s (reconciles ∷ ts) s'
  reconcile-Finishes f = record {
    turns = reconciles ∷ f.turns;
    later = f.later;
    split = ap (λ l. reconciles ∷ l) f.split;
    state = f.state;
    before = reconciled f.before;
    after = f.after;
    running = f.running;
    stage = f.stage;
    place = f.place;
  }

  serve-Finishes :
      {s m s' : State C} {ts : List Turn}
      → Moves C objects k pvc serve s m
      → Finishes C objects lo cfg k pvc m ts s'
      → Finishes C objects lo cfg k pvc s (serves ∷ ts) s'
  serve-Finishes move f = record {
    turns = serves ∷ f.turns;
    later = f.later;
    split = ap (λ l. serves ∷ l) f.split;
    state = f.state;
    before = served move f.before;
    after = f.after;
    running = f.running;
    stage = f.stage;
    place = f.place;
  }

  pass-Finishes :
      {s m s' : State C} {ts : List Turn}
      → Moves C objects k pvc (λ p. p) s m
      → Finishes C objects lo cfg k pvc m ts s'
      → Finishes C objects lo cfg k pvc s (others ∷ ts) s'
  pass-Finishes move f = record {
    turns = others ∷ f.turns;
    later = f.later;
    split = ap (λ l. others ∷ l) f.split;
    state = f.state;
    before = passed move f.before;
    after = f.after;
    running = f.running;
    stage = f.stage;
    place = f.place;
  }

  -- A backup has its place until it is finished.
  abbrev Placed : Phase → List String → Type 0
  Placed finished rs = elem name rs ≡ false
  Placed failed rs = ⊥
  Placed _ rs = elem name rs ≡ true

  elem-add_self : (rs : List String) → elem name (add name rs) ≡ true
  elem-add_self rs = elem-add name name rs ∙ ground (arith, eq_iff name name)

  elem-remove_self : (rs : List String) → elem name (remove name rs) ≡ false
  elem-remove_self rs = elem-remove name name rs ∙ ground (arith, eq_iff name name)

  advance-Placed :
      (p : Phase) (rs : List String) → is_over p ≡ false → Placed (advance p) (places p name rs)
  advance-Placed asked rs g = elem-add_self rs
  advance-Placed snapshotting rs g = elem-add_self rs
  advance-Placed ready rs g = elem-add_self rs
  advance-Placed uploading rs g = elem-add_self rs
  advance-Placed uploaded rs g = elem-remove_self rs
  advance-Placed finished rs g = cc
  advance-Placed failed rs g = cc

  Placed-elem :
      (p : Phase) (rs rs' : List String) → elem name rs' ≡ elem name rs → Placed p rs → Placed p rs'
  Placed-elem asked rs rs' e h = e ∙ h
  Placed-elem snapshotting rs rs' e h = e ∙ h
  Placed-elem ready rs rs' e h = e ∙ h
  Placed-elem uploading rs rs' e h = e ∙ h
  Placed-elem uploaded rs rs' e h = e ∙ h
  Placed-elem finished rs rs' e h = e ∙ h
  Placed-elem failed rs rs' e h = h

  serve-Placed : (p : Phase) (rs : List String) → Placed p rs → Placed (serve p) rs
  serve-Placed asked rs h = h
  serve-Placed snapshotting rs h = h
  serve-Placed ready rs h = h
  serve-Placed uploading rs h = h
  serve-Placed uploaded rs h = h
  serve-Placed finished rs h = h
  serve-Placed failed rs h = h

  Placed-admits :
      (p : Phase) (rs : List String) → is_over p ≡ false → Placed p rs → admits cfg name rs ≡ true
  Placed-admits asked rs g h = rw h refl
  Placed-admits snapshotting rs g h = rw h refl
  Placed-admits ready rs g h = rw h refl
  Placed-admits uploading rs g h = rw h refl
  Placed-admits uploaded rs g h = rw h refl
  Placed-admits finished rs g h = cc
  Placed-admits failed rs g h = cc

  -- A backup that is finished already, or has yet to take its turns.
  or_turns :
      {s s' : State C} {ts : List Turn} (p : Phase) (rs : List String)
      → Placed p rs
      → Stage C objects k pvc p rs s
      → Run C objects lo cfg k pvc s ts s'
      → (is_over p ≡ false → Finishes C objects lo cfg k pvc s ts s')
      → Finishes C objects lo cfg k pvc s ts s'
  or_turns {s} {s'} {ts} finished rs h stage r f = record {
    turns = [];
    later = ts;
    split = refl;
    state = s;
    before = rests;
    after = r;
    running = rs;
    stage = stage;
    place = h;
  }
  or_turns failed rs h stage r f = absurd h
  or_turns asked rs h stage r f = f refl
  or_turns snapshotting rs h stage r f = f refl
  or_turns ready rs h stage r f = f refl
  or_turns uploading rs h stage r f = f refl
  or_turns uploaded rs h stage r f = f refl

  comes_none : (p : Phase) → is_over p ≡ false → comes (remaining p) [] ≡ false
  comes_none asked g = refl
  comes_none snapshotting g = refl
  comes_none ready g = refl
  comes_none uploading g = refl
  comes_none uploaded g = refl
  comes_none finished g = cc
  comes_none failed g = cc

  module _ (S : IsServer C objects)
      (watched : ignores lo cfg.namespaces cfg.exclude_namespaces k.namespace ≡ false) where
    run_Finishes :
        {s s' : State C} {ts : List Turn} (p : Phase) (rs : List String)
        → Run C objects lo cfg k pvc s ts s'
        → Placed p rs
        → Stage C objects k pvc p rs s
        → comes (remaining p) ts ≡ true
        → Finishes C objects lo cfg k pvc s ts s'
    run_Finishes p rs rests h stage c =
        or_turns p rs h stage rests λ g. absurd (true-ne-false (sym c ∙ comes_none p g))
    run_Finishes p rs (reconciled r) h stage c = or_turns p rs h stage (reconciled r) λ g.
        reconcile-Finishes (
          run_Finishes (advance p) (places p name rs) r (advance-Placed p rs g)
            (reconcile-Stage C objects S cfg lo k pvc p rs _ stage g (Placed-admits p rs g h)
              watched)
            (turn-remaining reconciles _ p g c))
    run_Finishes p rs (served move r) h stage c = or_turns p rs h stage (served move r) λ g.
        let (rs', same, stage') = move.at p rs stage in
        serve-Finishes move (
          run_Finishes (serve p) rs' r (serve-Placed p rs' (Placed-elem p rs rs' same h)) stage'
            (turn-remaining serves _ p g c))
    run_Finishes p rs (passed move r) h stage c = or_turns p rs h stage (passed move r) λ g.
        let (rs', same, stage') = move.at p rs stage in
        pass-Finishes move (
          run_Finishes p rs' r (Placed-elem p rs rs' same h) stage' (turn-remaining others _ p g c))

    -- On an API that works, a backup that gets a place finishes: in every run that starts with a
    -- reconcile of it, and in which the turns that it then waits for come in their order (the
    -- cluster makes the snapshot, a reconcile, the cluster runs the Job, a reconcile), with any
    -- number of further turns of anybody between them, the backup is finished at some point, and has
    -- given its place back. Conditions: those of a step for its start, and the turns of the cluster
    -- and of others move the backup on as they should and leave it its place.
    pub backup_Finishes :
        {s s' : State C} {ts : List Turn} (p : Phase) (rs : List String)
        → Stage C objects k pvc p rs s
        → is_over p ≡ false
        → admits cfg name rs ≡ true
        → Run C objects lo cfg k pvc (reconcile C lo cfg k s).1 ts s'
        → comes (remaining (advance p)) ts ≡ true
        → Finishes C objects lo cfg k pvc s (reconciles ∷ ts) s'
    backup_Finishes p rs stage going room run fair = reconcile-Finishes (
        run_Finishes (advance p) (places p name rs) run (advance-Placed p rs going)
          (reconcile-Stage C objects S cfg lo k pvc p rs _ stage going room watched) fair)
