-- ===== src/Automatic/Safety.antt =====
-- Every PVCBackup that the creator makes is due, and nothing else is ever written.
use backsnap.Base.{◌≡◌, ◌≢◌, refl, ◌∙◌, ap, String, false, inr, List}
use backsnap.Base.{Option, none, some, eq_iff, str_eq}
use backsnap.Base.Dict.{lookup}
use backsnap.Go.Time.{Time, after}
use backsnap.Go.Lo.{Lo}
use backsnap.Kube.{NamespacedName, Namespace, Pvc}
use backsnap.Api.{PvcBackup}
use backsnap.Client.{Client, Reply, ok, err}
use backsnap.Client.Actions.{Action}
use backsnap.Client.Calls.{IsStable, call-Sends, Triple-request, Triple-quiet_call, Triple-or_gone}
use backsnap.Client.History.{
  Event, Events, IsRecorded, got_namespace, got_pvc, listed_child_backups, created_backup,
}
use backsnap.Exec.Trace.{
  Extends, Occurs, Occurs-map, Triple, Triple-pure, Triple-exit, Triple-or_fail, Triple-if,
  Triple-event, Triple-bind, Triple-when, Triple-weaken,
}
use backsnap.Settings.{currently_restoring_annotation}
use backsnap.Automatic.Schedule.{Cron, Float, schedule_of, newest_backup, next_backup}
use backsnap.Automatic.Requests.{AutomaticConfig}
use backsnap.Automatic.Reconcile.{
  new_backup, is_some, wait_until, create_backup, reconcile_schedule, or_bad_schedule, reconcile,
}
use backsnap.Automatic.Rules.{Scheduled, Due, Permitted}

not-some : {A : Type 0} (o : Option A) → is_some o ≡ false → o ≡ none
not-some none h = refl
not-some (some a) h = cc

not-empty : (s : String) → str_eq s "" ≡ false → s ≢ ""
not-empty s h e = cc ((eq_iff s "").1 e)

module _ (C : Client) (history : C.World → Events C) (R : IsRecorded C history) (lo : Lo)
    (cron : Cron) (fl : Float) (cfg : AutomaticConfig) (req : NamespacedName) where
  abbrev End : {A : Type 0} → A → Events C → Type 0
  End _ _ = Unit

  abbrev Spec : {A : Type 0} → (Events C → Type 0) → Action C A → (A → Events C → Type 0) → Type 0
  Spec Pre m Post = Triple (Permitted C lo cron fl cfg req) history Pre m Post

  abbrev On : Pvc → cron.Expression → Events C → Type 0
  On = Scheduled C lo cron fl cfg req

  On-stable : (pvc : Pvc) (e : cron.Expression) → IsStable (On pvc e)
  On-stable pvc e v es h = record {
    namespace = h.namespace;
    namespace_seen = inr h.namespace_seen;
    pvc_seen = inr h.pvc_seen;
    not_restoring = h.not_restoring;
    not_empty = h.not_empty;
    parsed = h.parsed;
  }

  wait_until-Permitted :
      {Pre : Events C → Type 0} (t : Time) → Spec Pre (wait_until C lo cron fl cfg t) End
  unfolding wait_until
  wait_until-Permitted t =
      Triple-bind _ _ (Triple-quiet_call C _ R.now-event) λ now. Triple-pure _ (λ es h. tt)

  create_backup-Permitted :
      (pvc : Pvc) (e : cron.Expression) (now : Time)
      → Spec
          (λ es. On pvc e es × Due C lo cron fl cfg req pvc e now es)
          (create_backup C lo cron fl cfg e pvc now)
          End
  unfolding create_backup
  create_backup-Permitted pvc e now =
      Triple-bind {Mid = λ _ es. On pvc e es × Due C lo cron fl cfg req pvc e now es} _ _
        (Triple-or_fail _ (λ a es e h. h))
        λ owners.
          let sent : PvcBackup = record new {
            meta = record new.meta { owner_references = owners };
          } in
          Triple-bind {Mid = End} _ _
            (Triple-event _ _ (call-Sends C _ (created_backup sent) (R.create_backup-event sent))
              (λ _ es h. (
                record {
                  pvc = pvc;
                  expression = e;
                  now = now;
                  owners = owners;
                  scheduled = h.0;
                  due = h.1;
                  is_new = refl;
                },
                tt,
              )))
            λ reply.
              Triple-bind {Mid = End} _ _ (Triple-or_fail reply (λ a es e h. tt))
                λ created. wait_until-Permitted _
    where
      new : PvcBackup
      new = new_backup pvc now

  reconcile_schedule-Permitted :
      (pvc : Pvc) (e : cron.Expression)
      → Spec (On pvc e) (reconcile_schedule C lo cron fl cfg pvc e) End
  unfolding reconcile_schedule
  reconcile_schedule-Permitted pvc e =
      Triple-bind _ _
        (Triple-request _ _ (call-Sends C _ list (R.list_child_backups-event _ _)) (On-stable pvc e)
          (λ _ es h. tt))
        λ reply.
          Triple-bind {Mid = λ cs es. Occurs (λ v. v ≡ list (ok cs)) es × On pvc e es} _ _
            (Triple-or_fail reply (λ a es q h. (Occurs-map es (λ v p. p ∙ ap list q) h.0, h.1)))
            λ children. Triple-bind _ _ (Triple-quiet_call C _ R.now-event) λ now.
              Triple-if (after (next_backup cron fl e (newest_backup lo pvc children)) now) _ _
                (λ _. wait_until-Permitted _)
                λ due.
                  Triple-weaken (create_backup-Permitted pvc e now)
                    (λ es h. (h.1, record { children = children; listed = h.0; due = due }))
    where
      list : Reply C.Failure (List PvcBackup) → Event C.Failure
      list = listed_child_backups pvc.meta.namespace pvc.meta.name

  or_bad_schedule-Permitted :
      {Pre : Events C → Type 0} (r : Reply String cron.Expression)
      → Spec Pre (or_bad_schedule C lo cron fl cfg r) (λ e es. (r ≡ ok e) × Pre es)
  unfolding or_bad_schedule
  or_bad_schedule-Permitted (ok e) = Triple-pure e (λ es h. (refl, h))
  or_bad_schedule-Permitted (err text) = Triple-exit _

  -- In any world that records its requests, whatever it replies: the creator of backups writes
  -- nothing but new PVCBackups, and each is justified by the requests and replies before it. Its
  -- PVC and namespace were read; the PVC was not being restored; the schedule of its annotation,
  -- else of the namespace's, else the default, is not empty and was parsed; the child backups of
  -- the PVC were listed; and the backup is named after a time at which the scheduled time after
  -- the newest of them had come.
  pub automatic-Permitted :
      (w : C.World)
      → Extends
          (Permitted C lo cron fl cfg req)
          (history w)
          (history (reconcile C lo cron fl cfg req w).1)
  unfolding reconcile
  automatic-Permitted w =
      ((Triple-bind {Pre = λ _. Unit} _ _
          (Triple-request _ _ (call-Sends C _ (got_namespace k) (R.get_namespace-event k))
            (λ e es h. tt) (λ _ es h. tt))
          λ found.
            Triple-bind {Mid = λ n. Occurs (λ v. v ≡ got_namespace k (ok n))} _ _
              (Triple-or_gone C found
                (λ n es q h. Occurs-map es (λ v p. p ∙ ap (got_namespace k) q) h.0))
              λ n.
                Triple-bind _ _
                  (Triple-request _ _ (call-Sends C _ (got_pvc req) (R.get_pvc-event req))
                    (λ e es h. inr h) (λ _ es h. tt))
                  λ reply.
                    Triple-bind {Mid = λ pvc es. Read n pvc es} _ _
                      (Triple-or_gone C reply
                        (λ pvc es q h. (Occurs-map es (λ v p. p ∙ ap (got_pvc req) q) h.0, h.1)))
                      λ pvc.
                        Triple-bind
                          {Mid = λ _ es.
                            (lookup currently_restoring_annotation pvc.meta.annotations ≡ none)
                            × Read n pvc es}
                          _ _
                          (Triple-when
                            (is_some (lookup currently_restoring_annotation pvc.meta.annotations)) _
                            (λ _. Triple-exit _) (λ free es h. (not-some _ free, h)))
                          λ _.
                            Triple-bind
                              {Mid = λ _ es.
                                (schedule_of cfg.default_schedule pvc n ≢ "")
                                × (lookup currently_restoring_annotation pvc.meta.annotations
                                    ≡ none)
                                × Read n pvc es}
                              _ _
                              (Triple-when (str_eq (schedule_of cfg.default_schedule pvc n) "") _
                                (λ _. Triple-exit _) (λ set es h. (not-empty _ set, h.0, h.1)))
                              λ _. Triple-bind _ _ (or_bad_schedule-Permitted _) λ e.
                                Triple-weaken (reconcile_schedule-Permitted pvc e) (λ es h. record {
                                  namespace = n;
                                  namespace_seen = h.1.2.1;
                                  pvc_seen = h.1.2.0;
                                  not_restoring = h.1.1;
                                  not_empty = h.1.0;
                                  parsed = h.0;
                                })).at
        w tt).0
    where
      k : NamespacedName
      k = record { namespace = req.namespace; name = req.namespace }

      Read : Namespace → Pvc → Events C → Type 0
      Read n pvc es =
          Occurs (λ v. v ≡ got_pvc req (ok pvc)) es × Occurs (λ v. v ≡ got_namespace k (ok n)) es
