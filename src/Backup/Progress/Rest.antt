-- ===== src/Backup/Progress/Rest.antt =====
-- A reconcile of a backup on an API that works, once it has its place and its start time.
use backsnap.Base.{◌≡◌, ◌≢◌, refl, String, true, false, Option, none, some, List, if◌then◌else◌}
use backsnap.Base.{Bool-cases, Option-cases, inl, inr}
use backsnap.Go.Time.{Time, is_zero}
use backsnap.Go.Lo.{Lo}
use backsnap.Kube.{key_of, Pvc, VolumeSnapshot, Job, Quantity}
use backsnap.Api.{PvcBackup}
use backsnap.Client.{Client}
use backsnap.Client.Server.{Objects, IsServer, put, put_self}
use backsnap.Exec.{pure, when, empty_result, ◌>>=◌}
use backsnap.Exec.Ends.{Ends-pure, Ends-bind, Ends-exit, Ends-fact}
use backsnap.Backup.State.{Config}
use backsnap.Backup.Steps.{is_ready, finish, ensure_job, restore_size}
use backsnap.Backup.Progress.Phase.{
  Phase, phase_of, phase_of_job, phase_of_snapshot, asked, snapshotting, ready, uploading, uploaded,
}
use backsnap.Backup.Progress.Run.{
  ensure_snapshot_old, ensure_snapshot_new, ensure_snapshot_pvc_lem, ensure_job_old, ensure_job_new,
  keep_or_put,
}
use backsnap.Backup.Progress.Here.{
  stay, Here-snapshot, Here-pvc, Here-job, finish-Stage, Here, Lands, rest, name,
}

size_of : (v : VolumeSnapshot) → restore_size v ≢ none → (q : Quantity) × (restore_size v ≡ some q)
size_of v h = elim (Option-cases (restore_size v)) [ inl e ↦ absurd (h e) | inr e ↦ e ]

module _ (C : Client) (objects : C.World → Objects) (S : IsServer C objects) (cfg : Config)
    (lo : Lo) (rs : List String) (b : PvcBackup) (pvc : Pvc)
    (unfinished : is_zero b.status.finished_at ≡ true) (started : Time)
    (begun : b.status.started_at ≡ some started) where
  rest-asked :
      (o : Objects)
      → Here C objects S cfg lo rs b pvc o
      → o.snapshots (key_of b.meta) ≡ none
      → Lands C objects S cfg lo rs b pvc asked o (rest C objects S cfg lo rs b pvc)
  unfolding ◌>>=◌
  rest-asked o facts absent =
      Ends-bind _ _ (ensure_snapshot_new C objects S cfg lo rs b pvc absent) λ v. Ends-fact λ e.
        rw e (
          Ends-exit _ (λ s h.
            stay C objects S cfg lo rs b pvc snapshotting _ s
              (Here-snapshot C objects S cfg lo rs b pvc o v e facts)
              (rw (unfinished, put_self, e) refl) h))

  rest-snapshotting :
      (o : Objects) (v : VolumeSnapshot)
      → Here C objects S cfg lo rs b pvc o
      → o.snapshots (key_of b.meta) ≡ some v
      → is_ready v.status ≡ false
      → Lands C objects S cfg lo rs b pvc snapshotting o (rest C objects S cfg lo rs b pvc)
  unfolding ◌>>=◌
  rest-snapshotting o v facts there unready =
      Ends-bind _ _ (ensure_snapshot_old C objects S cfg lo rs b pvc v there) λ u. Ends-fact λ e.
        rw (e, unready)
          (Ends-exit _ (λ s h.
            stay C objects S cfg lo rs b pvc snapshotting _ s facts
              (rw (unfinished, there, unready) refl) h))

  -- From a ready snapshot on, up to the Job.
  abbrev with_pvc : Objects → Pvc → Objects
  with_pvc o p = record o { pvcs = keep_or_put (key_of b.meta) (o.pvcs (key_of b.meta)) p o.pvcs }

  rest-to_job :
      (p : Phase) (o : Objects) (v : VolumeSnapshot)
      → Here C objects S cfg lo rs b pvc o
      → o.snapshots (key_of b.meta) ≡ some v
      → is_ready v.status ≡ true
      → ((t : Pvc)
          → Lands C objects S cfg lo rs b pvc p (with_pvc o t) (do
            job ← ensure_job C cfg lo (key_of b.meta) b pvc t
            if is_zero job.completion_time
                then pure empty_result
                else finish C cfg (key_of b.meta) (name C objects S cfg lo rs b pvc) b))
      → Lands C objects S cfg lo rs b pvc p o (rest C objects S cfg lo rs b pvc)
  unfolding ◌>>=◌ pure when
  rest-to_job p o v facts there usable m =
      let (q, size) = size_of v (facts.sized v there usable) in
      Ends-bind _ _ (ensure_snapshot_old C objects S cfg lo rs b pvc v there) λ u. Ends-fact λ e.
        rw (e, usable)
          (Ends-bind _ _
            (ensure_snapshot_pvc_lem C objects S cfg lo rs b v q size (o.pvcs (key_of b.meta)) refl)
            m)

  rest-ready :
      (o : Objects) (v : VolumeSnapshot)
      → Here C objects S cfg lo rs b pvc o
      → o.snapshots (key_of b.meta) ≡ some v
      → is_ready v.status ≡ true
      → o.jobs (key_of b.meta) ≡ none
      → Lands C objects S cfg lo rs b pvc ready o (rest C objects S cfg lo rs b pvc)
  rest-ready o v facts there usable absent = rest-to_job ready o v facts there usable λ t.
      Ends-bind _ _ (ensure_job_new C objects S cfg lo rs b pvc t absent) λ j. Ends-fact λ e.
        let same : phase_of b (o.snapshots (key_of b.meta))
              (put (key_of b.meta) (some j) o.jobs (key_of b.meta))
            ≡ uploading =
          rw (unfinished, there, usable, put_self, e) refl in
        rw e (
          Ends-pure _ (λ s h.
            stay C objects S cfg lo rs b pvc uploading _ s
              (Here-job C objects S cfg lo rs b pvc _ _
                (Here-pvc C objects S cfg lo rs b pvc o _ t facts))
              same h))

  rest-uploading :
      (o : Objects) (v : VolumeSnapshot) (j : Job)
      → Here C objects S cfg lo rs b pvc o
      → o.snapshots (key_of b.meta) ≡ some v
      → is_ready v.status ≡ true
      → o.jobs (key_of b.meta) ≡ some j
      → is_zero j.completion_time ≡ true
      → Lands C objects S cfg lo rs b pvc uploading o (rest C objects S cfg lo rs b pvc)
  rest-uploading o v j facts there usable running incomplete =
      let same : phase_of b (o.snapshots (key_of b.meta)) (o.jobs (key_of b.meta)) ≡ uploading =
        rw (unfinished, there, usable, running, incomplete) refl in
      rest-to_job uploading o v facts there usable λ t.
        Ends-bind _ _ (ensure_job_old C objects S cfg lo rs b pvc t j running) λ i. Ends-fact λ e.
          rw (e, incomplete)
            (Ends-pure _ (λ s h.
              stay C objects S cfg lo rs b pvc uploading _ s
                (Here-pvc C objects S cfg lo rs b pvc o _ t facts) same h))

  rest-uploaded :
      (o : Objects) (v : VolumeSnapshot) (j : Job)
      → Here C objects S cfg lo rs b pvc o
      → o.snapshots (key_of b.meta) ≡ some v
      → is_ready v.status ≡ true
      → o.jobs (key_of b.meta) ≡ some j
      → is_zero j.completion_time ≡ false
      → Lands C objects S cfg lo rs b pvc uploaded o (rest C objects S cfg lo rs b pvc)
  rest-uploaded o v j facts there usable running complete =
      rest-to_job uploaded o v facts there usable λ t.
        Ends-bind _ _ (ensure_job_old C objects S cfg lo rs b pvc t j running) λ i. Ends-fact λ e.
          rw (e, complete)
            (finish-Stage C objects S cfg lo rs b pvc _ started begun
              (Here-pvc C objects S cfg lo rs b pvc o _ t facts))

  -- From whatever objects the backup has.
  rest-Job :
      (o : Objects) (v : VolumeSnapshot) (j : Option Job)
      → Here C objects S cfg lo rs b pvc o
      → o.snapshots (key_of b.meta) ≡ some v
      → is_ready v.status ≡ true
      → o.jobs (key_of b.meta) ≡ j
      → Lands C objects S cfg lo rs b pvc (phase_of_job j) o (rest C objects S cfg lo rs b pvc)
  rest-Job o v none facts there usable e = rest-ready o v facts there usable e
  rest-Job o v (some j) facts there usable e = elim (Bool-cases (is_zero j.completion_time)) [
    | inl incomplete ↦ rw incomplete (rest-uploading o v j facts there usable e incomplete)
    | inr complete ↦ rw complete (rest-uploaded o v j facts there usable e complete)
  ]

  rest-VolumeSnapshot :
      (o : Objects) (v : Option VolumeSnapshot)
      → Here C objects S cfg lo rs b pvc o
      → o.snapshots (key_of b.meta) ≡ v
      → Lands C objects S cfg lo rs b pvc
          (phase_of_snapshot v (o.jobs (key_of b.meta)))
          o
          (rest C objects S cfg lo rs b pvc)
  rest-VolumeSnapshot o none facts e = rest-asked o facts e
  rest-VolumeSnapshot o (some v) facts e = elim (Bool-cases (is_ready v.status)) [
    | inl usable ↦ rw usable (rest-Job o v _ facts e usable refl)
    | inr unready ↦ rw unready (rest-snapshotting o v facts e unready)
  ]

  pub rest_lem :
      (o : Objects)
      → Here C objects S cfg lo rs b pvc o
      → Lands C objects S cfg lo rs b pvc
          (phase_of b (o.snapshots (key_of b.meta)) (o.jobs (key_of b.meta)))
          o
          (rest C objects S cfg lo rs b pvc)
  rest_lem o facts = rw unfinished (rest-VolumeSnapshot o _ facts refl)
