-- ===== src/Backup/Progress/Served.antt =====
-- What the rest of the cluster does for a backup: it makes the snapshot, and it runs the Job.
use backsnap.Base.{
  ◌≡◌, refl, sym, subst, ap, ◌∙◌, String, true, false, Option, none, some, Bool-cases, inl, inr,
}
use backsnap.Go.Time.{is_zero}
use backsnap.Kube.{NamespacedName, Pvc, VolumeSnapshot, Job}
use backsnap.Api.{PvcBackup}
use backsnap.Client.{Client}
use backsnap.Client.Server.{Objects, put, put_self}
use backsnap.Backup.State.{State}
use backsnap.Backup.Finished.{succeeded}
use backsnap.Backup.Steps.{is_ready}
use backsnap.Backup.Panic.Quiet.{Sized}
use backsnap.Backup.Progress.Phase.{serve, phase_of, phase_of_snapshot, phase_of_status}
use backsnap.Backup.Progress.Turns.{Moves}
use mathlib.Core.Option.{some-injective}

serve-phase_of_status : (r : Option String) → phase_of_status r ≡ serve (phase_of_status r)
serve-phase_of_status r = elim (Bool-cases (succeeded r)) [ inl e ↦ rw e refl | inr e ↦ rw e refl ]

-- The same change of the snapshot or the Job, whether or not the backup has ended.
serve-phase_of :
    (b : PvcBackup) (u v : Option VolumeSnapshot) (i j : Option Job)
    → phase_of_snapshot v j ≡ serve (phase_of_snapshot u i)
    → phase_of b v j ≡ serve (phase_of b u i)
serve-phase_of b u v i j h = elim (Bool-cases (is_zero b.status.finished_at)) [
  | inl e ↦ rw e h
  | inr e ↦ rw e (serve-phase_of_status b.status.result)
]

phase_of-eq :
    (b : PvcBackup) {u v : Option VolumeSnapshot} {i j : Option Job}
    → u ≡ v
    → i ≡ j
    → phase_of b u i ≡ phase_of b v j
phase_of-eq b {u} {v} {i} {j} e f = ap (λ x. phase_of b x i) e ∙ ap (λ y. phase_of b v y) f

serve-snapshot :
    (u v : VolumeSnapshot)
    → is_ready v.status ≡ true
    → phase_of_snapshot (some v) none ≡ serve (phase_of_snapshot (some u) none)
serve-snapshot u v usable = elim (Bool-cases (is_ready u.status)) [
  | inl e ↦ rw (usable, e) refl
  | inr e ↦ rw (usable, e) refl
]

serve-job :
    (v : VolumeSnapshot) (i j : Job)
    → is_ready v.status ≡ true
    → is_zero j.completion_time ≡ false
    → phase_of_snapshot (some v) (some j) ≡ serve (phase_of_snapshot (some v) (some i))
serve-job v i j usable complete = elim (Bool-cases (is_zero i.completion_time)) [
  | inl e ↦ rw (usable, complete, e) refl
  | inr e ↦ rw (usable, complete, e) refl
]

module _ (C : Client) (objects : C.World → Objects) (k : NamespacedName) (pvc : Pvc) (s : State C)
    (w : C.World) where
  -- The snapshot is made.
  pub snapshot-Moves :
      (u v : VolumeSnapshot)
      → (objects s.world).snapshots k ≡ some u
      → (objects s.world).jobs k ≡ none
      → is_ready v.status ≡ true
      → Sized v
      → objects w
        ≡ record (objects s.world) { snapshots = put k (some v) (objects s.world).snapshots }
      → Moves C objects k pvc serve s (record s { world = w })
  snapshot-Moves u v there none_yet usable size made = record {
    at = λ p rs stage.
        let now : (objects w).snapshots k ≡ some v =
          ap (λ (z : Objects). z.snapshots k) made ∙ put_self _ _ _ in
        let idle : (objects w).jobs k ≡ none = ap (λ (z : Objects). z.jobs k) made ∙ none_yet in
        let before : phase_of stage.backup (some u) none ≡ p =
          sym (phase_of-eq stage.backup there none_yet) ∙ stage.phase in
        (
          rs,
          refl,
          record {
            backup = stage.backup;
            key = stage.key;
            stored = ap (λ (z : Objects). z.backups k) made ∙ stage.stored;
            source =
                ap (λ (z : Objects). z.pvcs (record k { name = stage.backup.spec.pvc_name })) made
                ∙ stage.source;
            phase =
                phase_of-eq stage.backup now idle
                ∙ (serve-phase_of stage.backup (some u) (some v) none none
                      (serve-snapshot u v usable)
                    ∙ ap serve before);
            sized = λ x e. subst Sized (some-injective v x (sym now ∙ e)) (size);
            apart = stage.apart;
            running = stage.running;
          },
        );
  }

  -- The Job completes.
  pub job-Moves :
      (v : VolumeSnapshot) (i j : Job)
      → (objects s.world).snapshots k ≡ some v
      → is_ready v.status ≡ true
      → (objects s.world).jobs k ≡ some i
      → is_zero j.completion_time ≡ false
      → objects w ≡ record (objects s.world) { jobs = put k (some j) (objects s.world).jobs }
      → Moves C objects k pvc serve s (record s { world = w })
  job-Moves v i j there usable running complete made = record {
    at = λ p rs stage.
        let now : (objects w).jobs k ≡ some j =
          ap (λ (z : Objects). z.jobs k) made ∙ put_self _ _ _ in
        let same : (objects w).snapshots k ≡ some v =
          ap (λ (z : Objects). z.snapshots k) made ∙ there in
        let before : phase_of stage.backup (some v) (some i) ≡ p =
          sym (phase_of-eq stage.backup there running) ∙ stage.phase in
        (
          rs,
          refl,
          record {
            backup = stage.backup;
            key = stage.key;
            stored = ap (λ (z : Objects). z.backups k) made ∙ stage.stored;
            source =
                ap (λ (z : Objects). z.pvcs (record k { name = stage.backup.spec.pvc_name })) made
                ∙ stage.source;
            phase =
                phase_of-eq stage.backup same now
                ∙ (serve-phase_of stage.backup (some v) (some v) (some i) (some j)
                      (serve-job v i j usable complete)
                    ∙ ap serve before);
            sized = λ x e. stage.sized x (sym (ap (λ (z : Objects). z.snapshots k) made) ∙ e);
            apart = stage.apart;
            running = stage.running;
          },
        );
  }
