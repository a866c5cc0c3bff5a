-- ===== src/Backup/Progress/Refines.antt =====
-- The reconcile of a backup against the abstract machine of its phases.
use backsnap.Base.{
  ◌≡◌, refl, sym, subst, ap, ◌∙◌, String, Bool, true, false, not, Option, none, some, List, add,
  remove, elem, length, arith,
}
use backsnap.Base.{eq_iff, str_eq, ◌&&◌, Bool-cases, inl, inr, if◌then◌else◌}
use backsnap.Base.Int.{pos, ltb_ℤ, leb_ℤ}
use backsnap.Go.Time.{Time, is_zero}
use backsnap.Go.Lo.{Lo}
use backsnap.Kube.{key_of, NamespacedName, Result, Pvc, VolumeSnapshot, Job}
use backsnap.Api.{PvcBackup}
use backsnap.Client.{Client, ok}
use backsnap.Client.Server.{Objects, IsServer, put, put_self, found}
use backsnap.Client.Machine.{At, At-any}
use backsnap.Client.Machine.Gets.{At-get_pvc}
use backsnap.Client.Machine.Changes.{At-update_backup_status}
use backsnap.Exec.{Exec, Exit, next, or_fail, ◌>>=◌}
use backsnap.Exec.Ends.{Ends, Ends_state, Post, Ends-pure, Ends-bind}
use backsnap.Settings.{ignores}
use backsnap.Backup.State.{Config, State, occupy, backup_qualified_name}
use backsnap.Backup.Finished.{succeeded}
use backsnap.Backup.Steps.{admit, start_if_unset, mark_started}
use backsnap.Backup.Reconcile.{reconcile_unfinished, reconcile}
use backsnap.Backup.Places.{reconcile-unfinished, fetched}
use backsnap.Backup.Panic.Quiet.{Sized}
use backsnap.Backup.Progress.Phase.{
  Phase, phase_of, phase_of_status, phase_of_snapshot, advance, is_over, places, Stage, asked,
  snapshotting, ready, uploading, uploaded, finished, failed,
}
use backsnap.Backup.Progress.Run.{Facts, machine}
use backsnap.Backup.Progress.Here.{after, steps}
use backsnap.Backup.Progress.Rest.{rest_lem}

remove-add : (name : String) (rs : List String) → remove name (add name rs) ≡ remove name rs
unfolding add remove
remove-add name rs = elim (Bool-cases (elem name rs)) [
  | inl there ↦ rw there refl
  | inr absent ↦ rw absent (ground (arith, eq_iff name name))
]

-- The maximum of running backups lets the backup in.
abbrev pub admits : Config → String → List String → Bool
admits cfg name rs =
    if elem name rs
    then true
    else not
        (ltb_ℤ (pos 0) cfg.max_running_backups && leb_ℤ cfg.max_running_backups (pos (length rs)))

module _ (C : Client) (objects : C.World → Objects) (S : IsServer C objects) (cfg : Config)
    (lo : Lo) where
  admit-room :
      (name : String) (rs : List String) (s : State C)
      → s.current_running_backups ≡ some rs
      → admits cfg name rs ≡ true
      → admit C cfg name s ≡ (next tt, record s { current_running_backups = some (add name rs) })
  unfolding admit occupy
  admit-room name rs s known room = ground (arith, known, room)

  admit-Ends :
      {E : Exit C.Failure → State C → Type 0} (name : String) (rs : List String) (o : Objects)
      → admits cfg name rs ≡ true
      → Ends E
          (At C objects (machine C rs) o)
          (λ _ s. At C objects (machine C (add name rs)) o s)
          (admit C cfg name)
  admit-Ends {E} name rs o room = record {
    at = λ s h.
        subst (Post (λ _ z. At C objects (machine C (add name rs)) o z) E)
          (sym (admit-room name rs s h.1 room)) (h.0, refl);
  }

  module _ (rs : List String) (pvc : Pvc) (b : PvcBackup)
      (unfinished : is_zero b.status.finished_at ≡ true) where
    abbrev name : String
    name = backup_qualified_name (key_of b.meta)

    abbrev Landed : List String → Phase → State C → Type 0
    Landed taken p s =
        Stage C objects (key_of b.meta) pvc (advance p) (after C objects S cfg lo taken b pvc p) s

    abbrev Lands : List String → Phase → Objects → Exec C.Failure (State C) Result → Type 0
    Lands taken p o m =
        Ends (λ e s. Landed taken p s) (At C objects (machine C taken) o) (λ r s. Landed taken p s)
          m

    abbrev phase_at : Objects → Phase
    phase_at o = phase_of b (o.snapshots (key_of b.meta)) (o.jobs (key_of b.meta))

    abbrev Fits : Objects → Type 0
    Fits o = Facts C objects S cfg lo rs b pvc o

    abbrev begin : Time → PvcBackup
    begin now = record b { status = record b.status { started_at = some now } }

    abbrev begun_at : Time → Objects → Objects
    begun_at now o = record o { backups = put (key_of b.meta) (some (begin now)) o.backups }

    -- The backup is stored with a start time.
    abbrev Begun : List String → Objects → PvcBackup → State C → Type 0
    Begun taken o b' s =
        (now : Time) × (b' ≡ begin now) × At C objects (machine C taken) (begun_at now o) s

    begin-Lands :
        (taken : List String) (o : Objects) (now : Time)
        → Fits o
        → Lands taken
            (phase_at o)
            (begun_at now o)
            (steps C cfg lo pvc (key_of b.meta) name (begin now))
    begin-Lands taken o now facts =
        rest_lem C objects S cfg lo taken (begin now) pvc unfinished now refl (begun_at now o)
          (record {
            stored = put_self _ _ _;
            source = facts.source;
            sized = facts.sized;
            apart = facts.apart;
          })

    start-Lands :
        (taken : List String) (o : Objects) (st : Option Time)
        → b.status.started_at ≡ st
        → Fits o
        → Lands taken
            (phase_at o)
            o
            (start_if_unset C cfg b st >>= λ b'. steps C cfg lo pvc (key_of b.meta) name b')
    unfolding start_if_unset ◌>>=◌
    start-Lands taken o (some t) begun facts =
        rest_lem C objects S cfg lo taken b pvc unfinished t begun o (record {
          stored = facts.stored;
          source = facts.source;
          sized = facts.sized;
          apart = facts.apart;
        })
    start-Lands taken o none begun facts =
        Ends-bind {Mid = Begun taken o} (start_if_unset C cfg b none) _
          (At-any C objects (machine C taken) C.now _ S.now-objects (λ now.
            At-update_backup_status C objects S (machine C taken) _ b _ facts.stored
              (Ends-pure _ (λ s h. (now, refl, h)))))
          (λ b'. record {
            at = λ s h.
                let (now, e, there) = h in
                subst
                  (λ x.
                    Post (λ r. Landed taken (phase_at o)) (λ r. Landed taken (phase_at o))
                      (steps C cfg lo pvc (key_of b.meta) name x s))
                  (sym e) ((begin-Lands taken o now facts).at s there);
          })

    unfinished-Lands :
        (o : Objects)
        → Fits o
        → admits cfg name rs ≡ true
        → Ends
            (λ r. Landed (add name rs) (phase_at o))
            (At C objects (machine C rs) o)
            (λ r. Landed (add name rs) (phase_at o))
            (reconcile_unfinished C lo cfg (key_of b.meta) b)
    unfolding reconcile_unfinished mark_started ◌>>=◌ or_fail
    unfinished-Lands o facts room =
        At-get_pvc C objects S (machine C rs) _ (some pvc) _ facts.source (
          Ends-bind _ _ (admit-Ends name rs o room)
            (λ _. start-Lands (add name rs) o b.status.started_at refl facts))

  after_places :
      (p : Phase) (b : PvcBackup) (pvc : Pvc) (rs : List String)
      → let name = backup_qualified_name (key_of b.meta) in
        is_over p ≡ false → after C objects S cfg lo (add name rs) b pvc p ≡ places p name rs
  after_places asked b pvc rs e = refl
  after_places snapshotting b pvc rs e = refl
  after_places ready b pvc rs e = refl
  after_places uploading b pvc rs e = refl
  after_places uploaded b pvc rs e = remove-add _ rs
  after_places finished b pvc rs e = cc
  after_places failed b pvc rs e = cc

  over_of_status : (r : Option String) → is_over (phase_of_status r) ≡ true
  over_of_status r = elim (Bool-cases (succeeded r)) [ inl e ↦ rw e refl | inr e ↦ rw e refl ]

  ended_absurd : {b c : Bool} → c ≡ false → c ≡ true → b ≡ true
  ended_absurd e h = cc

  unfinished_of_phase :
      (b : PvcBackup) (v : Option VolumeSnapshot) (j : Option Job)
      → is_over (phase_of b v j) ≡ false
      → is_zero b.status.finished_at ≡ true
  unfinished_of_phase b v j h = elim (Bool-cases (is_zero b.status.finished_at)) [
    | inl e ↦ e
    | inr e ↦
        ended_absurd
          (ap (λ t. is_over (if t then phase_of_snapshot v j else phase_of_status b.status.result))
              (sym e)
            ∙ h)
          (over_of_status b.status.result)
  ]

  module _ (pvc : Pvc) (p : Phase) (rs : List String) (s : State C) (b : PvcBackup) where
    -- The step, once the backup of the key `k` is at hand.
    abbrev Turns : NamespacedName → Type 0
    Turns k =
        (objects s.world).backups k ≡ some b
        → (objects s.world).pvcs (record k { name = b.spec.pvc_name }) ≡ some pvc
        → phase_of b ((objects s.world).snapshots k) ((objects s.world).jobs k) ≡ p
        → ((v : VolumeSnapshot) → (objects s.world).snapshots k ≡ some v → Sized v)
        → admits cfg (backup_qualified_name k) rs ≡ true
        → ignores lo cfg.namespaces cfg.exclude_namespaces k.namespace ≡ false
        → Stage C objects k pvc (advance p) (places p (backup_qualified_name k) rs)
            (reconcile C lo cfg k s).1

    turns :
        str_eq b.meta.name b.spec.pvc_name ≡ false
        → s.current_running_backups ≡ some rs
        → is_over p ≡ false
        → Turns (key_of b.meta)
    turns apart known going stored source phase sized room watched =
        let unfinished = unfinished_of_phase b _ _ (ap is_over phase ∙ going) in
        let read = S.get_backup-Answers (key_of b.meta) s.world in
        let replied : (C.get_backup (key_of b.meta) s.world).0 ≡ ok b =
          read.0 ∙ ap (found S.missing) stored in
        let start = fetched C lo cfg (key_of b.meta) s rs b known watched replied in
        let facts : Facts C objects S cfg lo rs b pvc (objects s.world) = record {
          stored = stored;
          source = source;
          sized = sized;
          apart = apart;
        } in
        let run = reconcile_unfinished C lo cfg (key_of b.meta) b in
        rw (reconcile-unfinished C lo cfg (key_of b.meta) s rs b known watched replied unfinished) (
          subst (λ t. Stage C objects (key_of b.meta) pvc (advance p) t (run start).1)
            (after_places p b pvc rs going)
            (subst
              (λ q.
                Landed rs pvc b unfinished (add (backup_qualified_name (key_of b.meta)) rs) q
                  (run start).1)
              phase
              (Ends_state _ run (unfinished-Lands rs pvc b unfinished (objects s.world) facts room)
                start (read.1, known))))

  -- On an API that works, which nobody else writes to meanwhile, each reconcile of a backup that has
  -- not ended is one step of the abstract machine: one that is asked for has a snapshot afterwards,
  -- one whose snapshot is ready has its Job, one whose Job has completed is finished, and one that
  -- waits for its snapshot or Job stays where it is. The running backups are then the old ones and
  -- this one, or, once it is finished, the old ones without it. Conditions: the set of running
  -- backups is known and its maximum lets the backup in, its namespace is watched, its PVC is there
  -- and has another name than the backup, and a snapshot that is ready has a size.
  pub reconcile-Stage :
      (k : NamespacedName) (pvc : Pvc) (p : Phase) (rs : List String) (s : State C)
      → Stage C objects k pvc p rs s
      → is_over p ≡ false
      → admits cfg (backup_qualified_name k) rs ≡ true
      → ignores lo cfg.namespaces cfg.exclude_namespaces k.namespace ≡ false
      → Stage C objects k pvc
          (advance p)
          (places p (backup_qualified_name k) rs)
          (reconcile C lo cfg k s).1
  reconcile-Stage k pvc p rs s stage going room watched =
      subst (Turns pvc p rs s stage.backup) stage.key
        (turns pvc p rs s stage.backup stage.apart stage.running going) stage.stored stage.source
        stage.phase stage.sized room watched
