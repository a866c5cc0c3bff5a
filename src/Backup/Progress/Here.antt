-- ===== src/Backup/Progress/Here.antt =====
-- The end of a backup on an API that works, and where a reconcile that goes on leaves it.
use backsnap.Base.{
  ◌≡◌, refl, sym, subst, ap, ◌∙◌, String, true, false, not, Option, none, some, List, remove, arith,
  if◌then◌else◌,
}
use backsnap.Base.Int.{pos}
use backsnap.Go.Time.{Time, is_zero}
use backsnap.Go.Lo.{Lo}
use backsnap.Kube.{key_of, NamespacedName, Result, Pvc, VolumeSnapshot, Job}
use backsnap.Api.{PvcBackup}
use backsnap.Client.{Client, Reply, ok}
use backsnap.Client.Server.{Objects, IsServer, Store, put, put_self, put_other}
use backsnap.Client.Machine.{At}
use backsnap.Exec.{Exec, Exit, pure, exit, when, done, empty_result, ◌>>=◌, ◌>>◌}
use mathlib.Core.Option.{some-injective}
use backsnap.Exec.Ends.{Ends, Post}
use backsnap.Backup.State.{Config, State, backup_qualified_name}
use backsnap.Backup.Finished.{succeeded}
use backsnap.Backup.Steps.{
  is_ready, finish, finish_seen, ensure_snapshot, ensure_snapshot_pvc, ensure_job,
}
use backsnap.Backup.Ending.{finish_lem, ended_at, slept, poll_seen}
use backsnap.Backup.Panic.Quiet.{Sized}
use backsnap.Backup.Progress.Phase.{Phase, phase_of, advance, Stage, uploaded, finished}
use backsnap.Backup.Progress.Run.{M, Facts, keep_or_put}

module _ (C : Client) (cfg : Config) (lo : Lo) (pvc : Pvc) where
  -- The rest of a reconcile, from the snapshot on.
  abbrev pub steps : NamespacedName → String → PvcBackup → Exec C.Failure (State C) Result
  steps req qualified_name b = do
    snapshot ← ensure_snapshot C cfg req b pvc
    when (not (is_ready snapshot.status)) (exit (done empty_result))
    snapshot_pvc ← ensure_snapshot_pvc C cfg req b snapshot
    job ← ensure_job C cfg lo req b pvc snapshot_pvc
    if is_zero job.completion_time then pure empty_result else finish C cfg req qualified_name b

module _ (C : Client) (objects : C.World → Objects) (S : IsServer C objects) (cfg : Config)
    (lo : Lo) (rs : List String) (b : PvcBackup) (pvc : Pvc) where
  abbrev pub name : String
  name = backup_qualified_name (key_of b.meta)

  -- The poll sees a backup that is stored as finished.
  finish_seen_stored :
      (w : C.World) (y : PvcBackup)
      → (objects w).backups (key_of b.meta) ≡ some y
      → is_zero y.status.finished_at ≡ false
      → ((finish_seen C (key_of b.meta) w).0 ≡ ok true)
        × (objects (finish_seen C (key_of b.meta) w).1 ≡ objects w)
  unfolding finish_seen
  finish_seen_stored w y stored seen =
      let answer = S.get_backup-Answers (key_of b.meta) w in
      (rw (answer.0, stored, seen) refl, answer.1)

  ended_phase :
      (now started : Time) (v : Option VolumeSnapshot) (j : Option Job)
      → is_zero (some now) ≡ false
      → phase_of (ended_at now started b) v j ≡ finished
  unfolding succeeded
  ended_phase now started v j e = rw e refl

  pub finish-Stage :
      {E : Exit C.Failure → State C → Type 0} (o : Objects) (started : Time)
      → b.status.started_at ≡ some started
      → Facts C objects S cfg lo rs b pvc o
      → Ends E
          (At C objects (M C objects S cfg lo rs b) o)
          (λ r s. Stage C objects (key_of b.meta) pvc finished (remove name rs) s)
          (finish C cfg (key_of b.meta) name b)
  finish-Stage {E} o started begun facts = record {
    at = λ s h.
        let now = (C.now s.world).0 in
        let x = ended_at now started b in
        let w = slept C cfg (key_of b.meta) name b s in
        let asleep : objects w ≡ o = S.sleep-objects _ _ ∙ (S.now-objects s.world ∙ h.0) in
        let updated = S.update_backup_status-Answers x b w (rw asleep facts.stored) in
        let w' = (C.update_backup_status x w).1 in
        let after : objects w' ≡ record o { backups = put (key_of b.meta) (some x) o.backups } =
          updated.1
          ∙ ap (λ (z : Objects). record z { backups = put (key_of b.meta) (some x) z.backups })
              asleep in
        let stored : (objects w').backups (key_of b.meta) ≡ some x =
          ap (λ (z : Objects). z.backups (key_of b.meta)) after ∙ put_self _ _ _ in
        let seen = finish_seen_stored w' x stored (S.now-nonzero s.world) in
        let polled =
          S.poll-at_once (pos 100000000) (pos 2000000000) (finish_seen C (key_of b.meta)) w'
            seen.0 in
        let last : objects (poll_seen C cfg (key_of b.meta) name b s w').1
            ≡ record o { backups = put (key_of b.meta) (some x) o.backups } =
          ap (λ (z : Reply C.Failure Unit × C.World). objects z.1) polled ∙ (seen.1 ∙ after) in
        subst (Post _ E)
          (sym (
            finish_lem C cfg (key_of b.meta) name b s started rs x (ok tt) begun h.1 updated.0
              (ap (λ (z : Reply C.Failure Unit × C.World). z.0) polled)))
          (record {
            backup = x;
            key = refl;
            stored = ap (λ (z : Objects). z.backups (key_of b.meta)) last ∙ put_self _ _ _;
            source =
                ap (λ (z : Objects). z.pvcs (record (key_of b.meta) { name = b.spec.pvc_name }))
                  last
                ∙ facts.source;
            phase = ended_phase now started _ _ (S.now-nonzero s.world);
            sized = λ v e.
                facts.sized v (sym (ap (λ (z : Objects). z.snapshots (key_of b.meta)) last) ∙ e);
            apart = facts.apart;
            running = refl;
          });
  }

  -- Where a reconcile leaves the backup that started in phase `p` with its place taken.
  abbrev pub after : Phase → List String
  after uploaded = remove name rs
  after _ = rs

  abbrev pub Landed : Phase → State C → Type 0
  Landed p s = Stage C objects (key_of b.meta) pvc (advance p) (after p) s

  abbrev pub rest : Exec C.Failure (State C) Result
  rest = steps C cfg lo pvc (key_of b.meta) name b

  abbrev pub Lands : Phase → Objects → Exec C.Failure (State C) Result → Type 0
  Lands p o m =
      Ends (λ e s. Landed p s) (At C objects (M C objects S cfg lo rs b) o) (λ r s. Landed p s) m

  -- The backup as it is stored, in the phase that its other objects show.
  pub stay :
      (p : Phase) (o : Objects) (s : State C)
      → Facts C objects S cfg lo rs b pvc o
      → phase_of b (o.snapshots (key_of b.meta)) (o.jobs (key_of b.meta)) ≡ p
      → At C objects (M C objects S cfg lo rs b) o s
      → Stage C objects (key_of b.meta) pvc p rs s
  stay p o s facts phase h = record {
    backup = b;
    key = refl;
    stored = ap (λ (z : Objects). z.backups (key_of b.meta)) h.0 ∙ facts.stored;
    source =
        ap (λ (z : Objects). z.pvcs (record (key_of b.meta) { name = b.spec.pvc_name })) h.0
        ∙ facts.source;
    phase =
        ap (λ (z : Objects). phase_of b (z.snapshots (key_of b.meta)) (z.jobs (key_of b.meta))) h.0
        ∙ phase;
    sized = λ v e. facts.sized v (sym (ap (λ (z : Objects). z.snapshots (key_of b.meta)) h.0) ∙ e);
    apart = facts.apart;
    running = h.1;
  }

  abbrev pub Here : Objects → Type 0
  Here o = Facts C objects S cfg lo rs b pvc o

  pub Here-snapshot :
      (o : Objects) (v : VolumeSnapshot)
      → is_ready v.status ≡ false
      → Here o
      → Here (record o { snapshots = put (key_of b.meta) (some v) o.snapshots })
  Here-snapshot o v unready facts = record {
    stored = facts.stored;
    source = facts.source;
    sized = λ u there.
        let same : v ≡ u = some-injective v u (sym (put_self _ _ _) ∙ there) in
        subst Sized same (λ ready. cc);
    apart = facts.apart;
  }

  pub Here-pvc :
      (o : Objects) (there : Option Pvc) (p : Pvc)
      → Here o
      → Here (record o { pvcs = keep_or_put (key_of b.meta) there p o.pvcs })
  Here-pvc o none p facts = record {
    stored = facts.stored;
    source = put_other _ _ _ _ (ground (arith, facts.apart)) ∙ facts.source;
    sized = facts.sized;
    apart = facts.apart;
  }
  Here-pvc o (some _) p facts = record {
    stored = facts.stored;
    source = facts.source;
    sized = facts.sized;
    apart = facts.apart;
  }

  pub Here-job : (o : Objects) (f : Store Job) → Here o → Here (record o { jobs = f })
  Here-job o f facts = record {
    stored = facts.stored;
    source = facts.source;
    sized = facts.sized;
    apart = facts.apart;
  }
