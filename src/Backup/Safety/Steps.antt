-- ===== src/Backup/Safety/Steps.antt =====
-- The requests for a backup that has not finished, step by step.
use backsnap.Base.{◌≡◌, ◌∙◌, ap, String, Bool, true, inl, inr, List}
use backsnap.Base.{Option, none, some, arith}
use backsnap.Base.Dict.{lookup, lookup-insert}
use backsnap.Go.Time.{Time, Duration, is_zero}
use backsnap.Go.Lo.{Lo}
use backsnap.Kube.{NamespacedName, Pvc, VolumeSnapshot, Job, Quantity}
use backsnap.Api.{PvcBackup}
use backsnap.Client.{Client}
use backsnap.Client.History.{
  Event, Events, IsRecorded, got_pvc, got_snapshot, got_job, created_snapshot, created_pvc,
  created_job, updated_backup_status,
}
use backsnap.Exec.{Exec, panicked}
use backsnap.Exec.Trace.{
  Extends, here, more, Occurs, Occurs-map, Triple, Triple-pure, Triple-exit, Triple-or_fail,
  Triple-bind, Triple-silent,
}
use backsnap.Settings.{backup_schedule_annotation}
use backsnap.Backup.State.{Config, State, call, sleep, occupy}
use backsnap.Backup.Objects.{
  new_snapshot, new_snapshot_pvc, snapshot_pvc_annotations, new_backup_job, owned,
}
use backsnap.Backup.Steps.{
  finish_seen, admit, start_if_unset, ensure_snapshot, create_snapshot_pvc, restore_size,
  ensure_snapshot_pvc, ensure_job, finished_backup, finish,
}
use backsnap.Backup.Rules.{PvcSeen, SnapshotIn, ReadySeen, JobIn, CompletedSeen, Permitted}
use backsnap.Client.Calls.{
  IsStable, Triple-send, Triple-request, Triple-or_create, Triple-or_panic, Triple-or_wrap,
}
use backsnap.Backup.Safety.Calls.{hist, call-Sends, Triple-quiet_call, Triple-forget}

abbrev pub Anything : {F A : Type 0} → A → List (Event F) → Type 0
Anything _ _ = Unit

-- The temporary PVC has an empty schedule, whatever annotations the backup asks for.
unscheduled :
    (b : PvcBackup) → lookup backup_schedule_annotation (snapshot_pvc_annotations b) ≡ some ""
unfolding snapshot_pvc_annotations
unscheduled b = rw lookup-insert

ready_stable : {F : Type 0} (req : NamespacedName) → IsStable (ReadySeen {F = F} req)
ready_stable req e es (s, o, ready) = (s, inr o, ready)

completed_stable : {F : Type 0} (req : NamespacedName) → IsStable (CompletedSeen {F = F} req)
completed_stable req e es (j, o, completed) = (j, inr o, completed)

module _ (C : Client) (history : C.World → Events C) (R : IsRecorded C history) (cfg : Config)
    (req : NamespacedName) where
  abbrev pub Spec :
      {A : Type 0}
      → (Events C → Type 0)
      → Exec C.Failure (State C) A
      → (A → Events C → Type 0)
      → Type 0
  Spec Pre m Post = Triple (Permitted req) (hist C history) Pre m Post

  pub admit-Permitted :
      {Pre : Events C → Type 0} (name : String) → Spec Pre (admit C cfg name) (λ _. Pre)
  unfolding admit occupy hist
  admit-Permitted name = Triple-silent _ (λ s. ground arith) (λ s h. ground arith)

  pub start_if_unset-Permitted :
      {Pre : Events C → Type 0} (b : PvcBackup) (o : Option Time)
      → is_zero b.status.finished_at ≡ true
      → IsStable Pre
      → Spec Pre (start_if_unset C cfg b o) (λ _. Pre)
  unfolding start_if_unset
  start_if_unset-Permitted b (some _) unfinished stable = Triple-pure b (λ es h. h)
  start_if_unset-Permitted {Pre} b none unfinished stable =
      Triple-bind _ _ (Triple-quiet_call _ R.now-event) λ now.
        Triple-bind {Mid = λ _. Pre} _ _
          (Triple-send _ _
            (call-Sends _
              (updated_backup_status
                (record b { status = record b.status { started_at = some now } }))
              (R.update_backup_status-event _))
            stable (λ _ es h. inl unfinished))
          λ updated. Triple-or_fail updated (λ a es e h. h)

  -- The snapshot of the request that comes out was read or created.
  pub ensure_snapshot-Permitted :
      {Pre : Events C → Type 0} (b : PvcBackup) (pvc : Pvc)
      → IsStable Pre
      → ((es : Events C) → Pre es → PvcSeen req es (some pvc.meta.name))
      → Spec Pre (ensure_snapshot C cfg req b pvc) (λ s. Occurs (SnapshotIn req s))
  unfolding ensure_snapshot new_snapshot
  ensure_snapshot-Permitted {Pre} b pvc stable seen =
      let new = new_snapshot cfg.backup_settings b pvc.meta.name in
      Triple-bind _ _
        (Triple-request _ _ (call-Sends _ (got_snapshot req) (R.get_snapshot-event _)) stable
          (λ _ es h. tt))
        λ reply.
          Triple-or_create C reply _
            (λ a es e h. Occurs-map es (λ v p. inl (p ∙ ap (got_snapshot req) e)) h.0)
            (λ f e nf.
              Triple-bind {Mid = λ _. Pre} _ _ (Triple-or_fail _ (λ a es e h. h.1)) λ owners.
                let sent : VolumeSnapshot = record new { meta = owned new.meta owners } in
                Triple-bind _ _
                  (Triple-request _ _
                    (call-Sends _ (created_snapshot sent) (R.create_snapshot-event _)) stable
                    (λ _. seen))
                  λ created. Triple-or_fail created (λ a es e h.
                    Occurs-map es (λ v p. inr (sent, p ∙ ap (created_snapshot sent) e)) h.0))

  create_snapshot_pvc-Permitted :
      (b : PvcBackup) (s : VolumeSnapshot) (size : Option Quantity)
      → Spec (ReadySeen req) (create_snapshot_pvc C cfg b s size) (λ _. ReadySeen req)
  unfolding create_snapshot_pvc new_snapshot_pvc
  create_snapshot_pvc-Permitted b s none = Triple-exit panicked
  create_snapshot_pvc-Permitted b s (some size) =
      let new = new_snapshot_pvc cfg.backup_settings b s.meta.name size in
      Triple-bind {Mid = λ _. ReadySeen req} _ _ (Triple-or_fail _ (λ a es e h. h)) λ owners.
        Triple-bind {Mid = λ _. ReadySeen req} _ _
          (Triple-send _ _
            (call-Sends _ (created_pvc (record new { meta = owned new.meta owners }))
              (R.create_pvc-event _))
            (ready_stable req) (λ _ es h. (h, unscheduled b)))
          λ created. Triple-or_fail created (λ a es e h. h)

  pub ensure_snapshot_pvc-Permitted :
      (b : PvcBackup) (s : VolumeSnapshot)
      → Spec (ReadySeen req) (ensure_snapshot_pvc C cfg req b s) (λ _. ReadySeen req)
  unfolding ensure_snapshot_pvc
  ensure_snapshot_pvc-Permitted b s =
      Triple-bind {Mid = λ _. ReadySeen req} _ _
        (Triple-send _ _ (call-Sends _ (got_pvc req) (R.get_pvc-event _)) (ready_stable req)
          (λ _ es h. tt))
        λ reply.
          Triple-or_create C reply _ (λ a es e h. h)
            (λ f e nf. create_snapshot_pvc-Permitted b s (restore_size s))

  pub ensure_job-Permitted :
      (lo : Lo) (b : PvcBackup) (pvc snapshot_pvc : Pvc)
      → Spec
          (ReadySeen req)
          (ensure_job C cfg lo req b pvc snapshot_pvc)
          (λ j. Occurs (JobIn req j))
  unfolding ensure_job new_backup_job
  ensure_job-Permitted lo b pvc snapshot_pvc =
      let new = new_backup_job lo cfg.backup_settings b pvc snapshot_pvc.meta.name in
      Triple-bind _ _
        (Triple-request _ _ (call-Sends _ (got_job req) (R.get_job-event _)) (ready_stable req)
          (λ _ es h. tt))
        λ reply.
          Triple-or_create C reply _
            (λ a es e h. Occurs-map es (λ v p. inl (p ∙ ap (got_job req) e)) h.0)
            (λ f e nf.
              Triple-bind {Mid = λ _. ReadySeen req} _ _ (Triple-or_fail _ (λ a es e h. h.1))
                λ owners.
                  let sent : Job = record new { meta = owned new.meta owners } in
                  Triple-bind _ _
                    (Triple-request _ _ (call-Sends _ (created_job sent) (R.create_job-event _))
                      (ready_stable req) (λ _ es h. h))
                    λ created. Triple-or_fail created (λ a es e h.
                      Occurs-map es (λ v p. inr (sent, p ∙ ap (created_job sent) e)) h.0))

  -- The poll only reads the backup.
  poll-Permitted :
      {Pre : Events C → Type 0} (interval timeout : Duration) (immediate : Bool)
      → Spec Pre (call C (C.poll interval timeout immediate (finish_seen C req))) Anything
  unfolding call hist finish_seen
  poll-Permitted interval timeout immediate = record {
    at = λ s h. (
      R.poll-event (λ w. Extends (Permitted req) (history s.world) (history w)) interval timeout
          immediate (finish_seen C req) (λ w p. rw (R.get_backup-event req w) (more p tt)) s.world
          here,
      tt,
    );
  }

  finished_backup-Permitted :
      (b : PvcBackup) → Spec (CompletedSeen req) (finished_backup C cfg b) (λ _. CompletedSeen req)
  unfolding finished_backup
  finished_backup-Permitted b =
      Triple-bind _ _ (Triple-quiet_call _ R.now-event) λ now. Triple-or_panic C _ (λ a es e h. h)

  pub finish-Permitted :
      (name : String) (b : PvcBackup) → Spec (CompletedSeen req) (finish C cfg req name b) Anything
  unfolding finish sleep hist
  finish-Permitted name b =
      Triple-bind {Mid = λ _. CompletedSeen req} _ _ (finished_backup-Permitted b) λ b'.
        Triple-bind {Mid = λ _. CompletedSeen req} _ _
          (Triple-silent _ (λ s. R.sleep-event _ s.world) (λ s h. h))
          λ _.
            Triple-bind {Mid = λ _. CompletedSeen req} _ _
              (Triple-send _ _
                (call-Sends _ (updated_backup_status b') (R.update_backup_status-event _))
                (completed_stable req) (λ _ es h. inr h))
              λ updated.
                Triple-bind {Mid = Anything} _ _ (Triple-or_fail updated (λ a es e h. tt)) λ _.
                  Triple-bind {Mid = Anything} _ _ (poll-Permitted _ _ _) λ polled.
                    Triple-bind {Mid = Anything} _ _ (Triple-or_wrap C _ polled) λ _.
                      Triple-bind {Mid = Anything} _ _ (Triple-forget history name)
                        λ _. Triple-pure _ (λ es h. tt)
