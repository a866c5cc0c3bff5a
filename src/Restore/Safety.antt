-- ===== src/Restore/Safety.antt =====
-- Every request that `Reconcile` of `PVCRestoreReconciler` sends is justified by what it saw before.
use backsnap.Base.{◌≡◌, refl, ◌∙◌, ap, String, true, not, inl, inr}
use backsnap.Base.{Option, none, some, str_eq, not-eq-false}
use backsnap.Base.Dict.{erase}
use backsnap.Go.Time.{Time, is_zero}
use backsnap.Go.Lo.{Lo}
use backsnap.Kube.{NamespacedName, Pvc, Job}
use backsnap.Api.{PvcRestore}
use backsnap.Client.{Client, Reply, ok, err}
use backsnap.Client.Calls.{
  IsStable, call-Sends, Triple-request, Triple-quiet_call, Triple-or_create, Triple-or_panic,
  Triple-or_gone,
}
use backsnap.Client.History.{
  Events, IsRecorded, got_restore, got_pvc, got_job, created_pvc, created_job, updated_pvc,
  updated_restore_status,
}
use backsnap.Exec.{Exec}
use backsnap.Exec.Trace.{
  Extends, Occurs, Occurs-map, Triple, Triple-pure, Triple-exit, Triple-or_fail, Triple-if,
  Triple-event, Triple-bind, Triple-when, Triple-weaken,
}
use backsnap.Settings.{ignores, currently_restoring_annotation}
use backsnap.Restore.Objects.{target_of, new_target_pvc, with_defaults, new_restore_job}
use backsnap.Restore.Steps.{
  RestoreConfig, is_marked, with_restore, end_restore, start_if_unset, ensure_target, ensure_job,
  after_unmark, unmark,
}
use backsnap.Restore.Marks.{
  is_marked_sound, with_restore_sound, marked, set_restore_finished-result,
}
use backsnap.Restore.Reconcile.{restore_into, reconcile_restore, reconcile}
use backsnap.Restore.Rules.{
  RestoreIn, PvcIn, JobIn, MarkedSeen, CompletedSeen, StatusAllowed, Permitted,
}

module _ (C : Client) (history : C.World → Events C) (R : IsRecorded C history) (lo : Lo)
    (cfg : RestoreConfig) (req : NamespacedName) where
  abbrev End : {A : Type 0} → A → Events C → Type 0
  End _ _ = Unit

  abbrev Spec :
      {A : Type 0}
      → (Events C → Type 0)
      → Exec C.Failure C.World A
      → (A → Events C → Type 0)
      → Type 0
  Spec Pre m Post = Triple (Permitted C.is_not_found req) history Pre m Post

  end_restore-Permitted :
      {Pre : Events C → Type 0} (result : String) (r : PvcRestore)
      → ((es : Events C) (r' : PvcRestore)
          → r'.status.result ≡ some result
          → Pre es
          → StatusAllowed r' es)
      → Spec Pre (end_restore C result r) End
  unfolding end_restore
  end_restore-Permitted {Pre} result r k =
      Triple-bind {Mid = λ _. Pre} _ _ (Triple-quiet_call C _ R.now-event) λ now.
        Triple-bind {Mid = λ r' es. (r'.status.result ≡ some result) × Pre es} _ _
          (Triple-or_panic C _ (λ r' es e h. (set_restore_finished-result now result r r' e, h)))
          λ r'.
            Triple-bind {Mid = End} _ _
              (Triple-event _ _
                (call-Sends C _ (updated_restore_status r') (R.update_restore_status-event _))
                (λ _ es h. (k es r' h.0 h.1, tt)))
              λ updated.
                Triple-bind {Mid = End} _ _ (Triple-or_fail updated (λ a es e h. tt))
                  λ _. Triple-pure _ (λ es h. tt)

  failed : {Pre : Events C → Type 0} (r : PvcRestore) → Spec Pre (end_restore C "Failed" r) End
  failed r = end_restore-Permitted "Failed" r (λ es r' e h. inr (inl e))

  start_if_unset-Permitted :
      (r : PvcRestore) (o : Option Time)
      → is_zero r.status.finished_at ≡ true
      → Spec (Occurs (RestoreIn req r)) (start_if_unset C r o) (λ r'. Occurs (RestoreIn req r'))
  unfolding start_if_unset
  start_if_unset-Permitted r (some _) unfinished = Triple-pure r (λ es h. h)
  start_if_unset-Permitted r none unfinished =
      Triple-bind {Mid = λ _. Occurs (RestoreIn req r)} _ _ (Triple-quiet_call C _ R.now-event)
        λ now.
          let sent : PvcRestore = record r { status = record r.status { started_at = some now } } in
          Triple-bind _ _
            (Triple-request _ _
              (call-Sends C _ (updated_restore_status sent) (R.update_restore_status-event _))
              (λ e es h. inr h) (λ _ es h. inl unfinished))
            λ updated. Triple-or_fail updated (λ a es e h.
              Occurs-map es (λ v p. inr (sent, p ∙ ap (updated_restore_status sent) e)) h.0)

  ensure_target-Permitted :
      (target : String) (r : PvcRestore)
      → Spec
          (Occurs (RestoreIn req r))
          (ensure_target C cfg.backup_settings req target r)
          (λ p es. Occurs (PvcIn req p) es × Occurs (RestoreIn req r) es)
  unfolding ensure_target new_target_pvc
  ensure_target-Permitted target r =
      Triple-bind _ _
        (Triple-request _ _ (call-Sends C _ (got_pvc k) (R.get_pvc-event k)) (λ e es h. inr h)
          (λ _ es h. tt))
        λ reply.
          Triple-or_create C reply _
            (λ a es e h. (Occurs-map es (λ v p. inl (k, p ∙ ap (got_pvc k) e)) h.0, h.1))
            (λ f e nf.
              Triple-bind _ _
                (Triple-request _ _ (call-Sends C _ (created_pvc new) (R.create_pvc-event new))
                  (λ v es h. (inr h.0, inr h.1))
                  (λ _ es h. (
                    r.meta.uid,
                    (r, h.1, refl),
                    marked r,
                    (f, nf, Occurs-map es (λ v p. p ∙ ap (got_pvc k) e) h.0),
                    refl,
                  )))
                λ created. Triple-or_fail created (λ a es e' h.
                  (Occurs-map es (λ v p. inr (new, p ∙ ap (created_pvc new) e')) h.0, h.1.1)))
    where
      k : NamespacedName
      k = record req { name = target }

      new : Pvc
      new = new_target_pvc cfg.backup_settings req.namespace target r

  -- The PVC is marked with the UID of the PVCRestore, and both were seen.
  abbrev Known : PvcRestore → Pvc → Events C → Type 0
  Known r p es = MarkedSeen req r.meta.uid p es × Occurs (RestoreIn req r) es

  Known-stable : (r : PvcRestore) (p : Pvc) → IsStable (Known r p)
  Known-stable r p e es ((o, m), q) = ((inr o, m), inr q)

  ensure_job-Permitted :
      (r : PvcRestore) (p : Pvc)
      → Spec
          (Known r p)
          (ensure_job C lo cfg.backup_settings req r p)
          (λ jr es. Occurs (JobIn req jr.0) es × (jr.1.meta.uid ≡ r.meta.uid) × Known r p es)
  unfolding ensure_job new_restore_job with_defaults
  ensure_job-Permitted r p =
      Triple-bind _ _
        (Triple-request _ _ (call-Sends C _ (got_job req) (R.get_job-event req)) (Known-stable r p)
          (λ _ es h. tt))
        λ reply.
          Triple-or_create C (with_restore r reply) _
            (λ a es e h.
              let (same, kept) = with_restore_sound r reply a e in
              (
                Occurs-map es (λ v q. inl (q ∙ ap (got_job req) same)) h.0,
                ap (λ (x : PvcRestore). x.meta.uid) kept,
                h.1,
              ))
            (λ f e nf.
              Triple-bind {Mid = λ _. Known r p} _ _ (Triple-or_fail _ (λ a es e h. h.1)) λ owners.
                let sent : Job = record new {
                  meta = record new.meta { owner_references = owners };
                } in
                Triple-bind _ _
                  (Triple-request _ _ (call-Sends C _ (created_job sent) (R.create_job-event sent))
                    (Known-stable r p) (λ _ es h. (r.meta.uid, p, (r, h.1, refl), h.0)))
                  λ created.
                    Triple-bind {Mid = λ j es. Occurs (JobIn req j) es × Known r p es} _ _
                      (Triple-or_fail created (λ a es e h.
                        (Occurs-map es (λ v q. inr (sent, q ∙ ap (created_job sent) e)) h.0, h.1)))
                      λ job. Triple-pure _ (λ es h. (h.0, refl, h.1)))
    where
      new : Job
      new = new_restore_job lo cfg.backup_settings (with_defaults r) p.meta.name

  after_unmark-Permitted :
      (r : PvcRestore) (x : Pvc) (reply : Reply C.Failure Pvc)
      → Spec (Occurs (λ e. e ≡ updated_pvc x reply)) (after_unmark C r reply) End
  unfolding after_unmark
  after_unmark-Permitted r x (err _) = failed r
  after_unmark-Permitted r x (ok y) =
      end_restore-Permitted "Succeeded" r (λ es r' e h. inr (inr (x, y, h)))

  unmark-Permitted :
      (r r' : PvcRestore) (p : Pvc)
      → Spec (λ es. CompletedSeen req r.meta.uid es × Known r p es) (unmark C r' p) End
  unfolding unmark
  unmark-Permitted r r' p =
      Triple-bind _ _
        (Triple-request _ _ (call-Sends C _ (updated_pvc sent) (R.update_pvc-event sent))
          (λ e es h. ((h.0.0, inr h.0.1, h.0.2, h.0.3), Known-stable r p e es h.1))
          (λ _ es h. (r.meta.uid, p, (r, h.1.1, refl), h.1.0, h.0, refl)))
        λ reply. Triple-weaken (after_unmark-Permitted r' sent reply) (λ es h. h.0)
    where
      sent : Pvc
      sent = record p {
        meta = record p.meta {
          annotations = erase currently_restoring_annotation p.meta.annotations;
        };
      }

  restore_into-Permitted :
      (target : String) (r : PvcRestore)
      → Spec (Occurs (RestoreIn req r)) (restore_into C lo cfg req target r) End
  unfolding restore_into
  restore_into-Permitted target r = Triple-bind _ _ (ensure_target-Permitted target r) λ p.
      Triple-if (not (is_marked p.meta.annotations r.meta.uid)) _ _ (λ _. failed r)
        λ mine.
          Triple-bind _ _
            (Triple-weaken (ensure_job-Permitted r p)
              (λ es h. ((h.0, is_marked_sound _ _ mine), h.1)))
            λ jr.
              Triple-if (not (is_marked jr.0.meta.annotations jr.1.meta.uid)) _ _ (λ _. failed jr.1)
                λ own.
                  Triple-if (is_zero jr.0.completion_time) _ _ (λ _. Triple-pure _ (λ es h. tt))
                    λ completed.
                      Triple-weaken (unmark-Permitted r jr.1 p) (λ es h.
                        ((jr.0, h.0, is_marked_sound _ _ own ∙ ap some h.1, completed), h.2))

  reconcile_restore-Permitted :
      (r : PvcRestore) → Spec (Occurs (RestoreIn req r)) (reconcile_restore C lo cfg req r) End
  unfolding reconcile_restore
  reconcile_restore-Permitted r =
      Triple-if (not (is_zero r.status.finished_at)) _ _ (λ _. Triple-pure _ (λ es h. tt))
        λ unfinished.
          Triple-if (str_eq (target_of r) "") _ _ (λ _. Triple-exit _)
            λ _.
              Triple-bind _ _ (start_if_unset-Permitted r _ (not-eq-false _ unfinished))
                λ started. restore_into-Permitted (target_of r) started

  -- In any world that records its requests, whatever it replies: each request that a reconcile of
  -- PVCRestore `req` adds is permitted by the requests and replies before it. A PVC is created only
  -- after the API said that none of its name exists, marked with the UID of the PVCRestore and
  -- without an owner; the Job is created only after a PVC with that mark was seen; a PVC is
  -- changed only if it carries that mark and a Job with the same mark was seen completed, and the
  -- change removes just the mark; the PVCRestore is stored as finished only as failed or after the
  -- PVC was stored without its mark; nothing is deleted, and no backup or snapshot is written.
  pub restore-Permitted :
      (w : C.World)
      → Extends (Permitted C.is_not_found req) (history w) (history (reconcile C lo cfg req w).1)
  unfolding reconcile
  restore-Permitted w =
      ((Triple-bind {Pre = λ _. Unit} {Mid = End} _ _
          (Triple-when (ignores lo cfg.namespaces cfg.exclude_namespaces req.namespace) _
            (λ _. Triple-exit _) (λ _ es h. tt))
          λ _.
            Triple-bind _ _
              (Triple-request _ _ (call-Sends C _ (got_restore req) (R.get_restore-event req))
                (λ e es h. tt) (λ _ es h. tt))
              λ reply.
                Triple-bind _ _
                  (Triple-or_gone C reply
                    (λ r es e h. Occurs-map es (λ v q. inl (q ∙ ap (got_restore req) e)) h.0))
                  λ r. reconcile_restore-Permitted r).at
        w tt).0
