-- ===== src/Backup/Safety/Reconcile.antt =====
-- The whole reconcile: every request it sends is permitted by what it saw before.
use backsnap.Base.{◌≡◌, refl, ◌∙◌, ap, String, true, false, not, inr, List, [], ◌∷◌}
use backsnap.Base.{Option, none, some, arith, not-eq-false}
use backsnap.Base.Int.{pos}
use backsnap.Go.Time.{Time, is_zero}
use backsnap.Go.Lo.{Lo}
use backsnap.Kube.{NamespacedName, Pvc}
use backsnap.Api.{PvcBackup}
use backsnap.Client.{Client, Reply, ok, err}
use backsnap.Client.History.{Events, IsRecorded, got_backup, got_pvc, listed_backups}
use backsnap.Exec.{Exec, or_fail, ◌>>=◌}
use backsnap.Exec.Trace.{
  Extends, Occurs, Occurs-map, Triple-pure, Triple-exit, Triple-or_fail, Triple-if, Triple-bind,
  Triple-silent, Triple-when, Triple-weaken,
}
use mathlib.Core.Option
use backsnap.Settings.{ignores}
use backsnap.Backup.State.{Config, State, call, occupy, backup_is_running}
use backsnap.Backup.Running.{
  mark_included, mark, find_in, all_namespaces, find_current_running_backups,
}
use backsnap.Backup.Finished.{reconcile_finished}
use backsnap.Backup.Steps.{is_ready, mark_started}
use backsnap.Backup.Reconcile.{
  find_if_none, find_when_unset, or_forget, fetch_backup, reconcile_unfinished, reconcile_backup,
  reconcile,
}
use backsnap.Backup.Rules.{Fetched, ReadySeen, Permitted}
use backsnap.Client.Calls.{Triple-send, Triple-request}
use backsnap.Backup.Safety.Calls.{hist, call-Sends, Triple-forget}
use backsnap.Backup.Safety.Finished.{reconcile_finished-Permitted}
use backsnap.Backup.Safety.Steps.{
  Spec, admit-Permitted, start_if_unset-Permitted, ensure_snapshot-Permitted,
  ensure_snapshot_pvc-Permitted, ensure_job-Permitted, finish-Permitted,
}

module _ (C : Client) (history : C.World → Events C) (R : IsRecorded C history) (lo : Lo)
    (cfg : Config) (req : NamespacedName) where
  -- No knowledge is needed, or left.
  abbrev Start : Events C → Type 0
  Start _ = Unit

  abbrev End : {A : Type 0} → A → Events C → Type 0
  End _ _ = Unit

  abbrev Plain : {A : Type 0} → Exec C.Failure (State C) A → Type 0
  Plain m = Spec C history R cfg req Start m End

  occupy-Permitted : (name : String) → Plain (occupy C name)
  unfolding occupy hist
  occupy-Permitted name = Triple-silent _ (λ s. ground arith) (λ s h. ground arith)

  occupy_then :
      (name : String) (m : Exec C.Failure (State C) Unit)
      → Plain m
      → Plain (occupy C name >>= λ _. m)
  occupy_then name m t = Triple-bind {Mid = End} _ _ (occupy-Permitted name) λ _. t

  mark-Permitted : (bs : List PvcBackup) → Plain (mark C lo cfg bs)
  unfolding mark
  mark-Permitted [] = Triple-pure tt (λ es h. tt)
  mark-Permitted (b ∷ bs) =
      Triple-if (backup_is_running b) _ _ (λ _. occupy_then _ _ (mark-Permitted bs))
        (λ _. mark-Permitted bs)

  mark_included-Permitted : (bs : List PvcBackup) → Plain (mark_included C lo cfg bs)
  unfolding mark_included
  mark_included-Permitted [] = Triple-pure tt (λ es h. tt)
  mark_included-Permitted (b ∷ bs) =
      Triple-if (backup_is_running b) _ _
        (λ _.
          Triple-if (lo.contains cfg.exclude_namespaces b.meta.namespace) _ _
            (λ _. mark_included-Permitted bs) (λ _. occupy_then _ _ (mark_included-Permitted bs)))
        (λ _. mark_included-Permitted bs)

  list_then :
      (ns : Option String) (f : List PvcBackup → Exec C.Failure (State C) Unit)
      → ((bs : List PvcBackup) → Plain (f bs))
      → Plain (call C (C.list_backups ns) >>= λ reply. or_fail reply >>= f)
  list_then ns f t =
      Triple-bind {Mid = End} _ _
        (Triple-send _ _ (call-Sends _ (listed_backups ns) (R.list_backups-event ns)) (λ e es h. tt)
          (λ _ es h. tt))
        λ reply. Triple-bind {Mid = End} _ _ (Triple-or_fail reply (λ a es e h. tt)) t

  find_in-Permitted : (namespaces : List String) → Plain (find_in C lo cfg namespaces)
  unfolding find_in
  find_in-Permitted [] = Triple-pure tt (λ es h. tt)
  find_in-Permitted (n ∷ ns) =
      Triple-if (lo.contains cfg.exclude_namespaces n) _ _ (λ _. find_in-Permitted ns)
        λ _.
          list_then (some n) _
            λ bs. Triple-bind {Mid = End} _ _ (mark-Permitted bs) λ _. find_in-Permitted ns

  find-Permitted : Plain (find_current_running_backups C lo cfg)
  unfolding find_current_running_backups hist
  find-Permitted = Triple-bind {Mid = End} _ _ (Triple-silent _ (λ s. refl) (λ s h. tt)) λ _.
      Triple-if (all_namespaces cfg.namespaces) _ _ (λ _. list_then none _ mark_included-Permitted)
        (λ _. find_in-Permitted cfg.namespaces)

  find_if_none-Permitted : (o : Option (List String)) → Plain (find_if_none C lo cfg o)
  unfolding find_if_none
  find_if_none-Permitted none = find-Permitted
  find_if_none-Permitted (some _) = Triple-pure tt (λ es h. tt)

  find_when_unset-Permitted : Plain (find_when_unset C lo cfg)
  unfolding find_when_unset
  find_when_unset-Permitted = record {
    at = λ s h. (find_if_none-Permitted s.current_running_backups).at s h;
  }

  or_forget-Permitted :
      (r : Reply C.Failure PvcBackup)
      → Spec C history R cfg req
          (Occurs (λ e. e ≡ got_backup req r))
          (or_forget C lo cfg req r)
          (λ b es. Fetched req es b)
  unfolding or_forget
  or_forget-Permitted (ok b) = Triple-pure b (λ es h. h)
  or_forget-Permitted (err e) =
      Triple-if (C.is_not_found e) _ _
        (λ _.
          Triple-bind {Mid = End} _ _
            (Triple-weaken (Triple-forget history {Pre = Start} _) (λ es h. tt)) λ _. Triple-exit _)
        (λ _. Triple-exit _)

  fetch_backup-Permitted :
      Spec C history R cfg req Start (fetch_backup C lo cfg req) (λ b es. Fetched req es b)
  unfolding fetch_backup
  fetch_backup-Permitted =
      Triple-bind _ _
        (Triple-request _ _ (call-Sends _ (got_backup req) (R.get_backup-event req)) (λ e es h. tt)
          (λ _ es h. tt))
        λ r. Triple-weaken (or_forget-Permitted r) (λ es h. h.0)

  reconcile_unfinished-Permitted :
      (b : PvcBackup)
      → is_zero b.status.finished_at ≡ true
      → Plain (reconcile_unfinished C lo cfg req b)
  unfolding reconcile_unfinished mark_started
  reconcile_unfinished-Permitted backup unfinished =
      Triple-bind _ _
        (Triple-request _ _ (call-Sends _ (got_pvc k) (R.get_pvc-event k)) (λ e es h. tt)
          (λ _ es h. tt))
        λ reply.
          Triple-bind {Mid = Got} _ _
            (Triple-or_fail reply (λ a es e h. Occurs-map es (λ v p. p ∙ ap (got_pvc k) e) h.0))
            λ pvc. Triple-bind {Mid = λ _. Got pvc} _ _ (admit-Permitted C history R cfg req _) λ _.
              Triple-bind {Mid = λ _. Got pvc} _ _
                (start_if_unset-Permitted C history R cfg req backup _ unfinished (λ e es h. inr h))
                λ b.
                  Triple-bind _ _
                    (ensure_snapshot-Permitted C history R cfg req b pvc (λ e es h. inr h)
                      (λ es h. (k, pvc, h, refl)))
                    λ snapshot.
                      Triple-bind {Mid = λ _. ReadySeen req} _ _
                        (Triple-when (not (is_ready snapshot.status)) _ (λ _. Triple-exit _)
                          (λ ready es h. (snapshot, h, not-eq-false _ ready)))
                        λ _.
                          Triple-bind {Mid = λ _. ReadySeen req} _ _
                            (ensure_snapshot_pvc-Permitted C history R cfg req b snapshot)
                            λ snapshot_pvc.
                              Triple-bind _ _
                                (ensure_job-Permitted C history R cfg req lo b pvc snapshot_pvc)
                                λ job.
                                  Triple-if (is_zero job.completion_time) _ _
                                    (λ _. Triple-pure _ (λ es h. tt))
                                    λ completed.
                                      Triple-weaken (finish-Permitted C history R cfg req _ b)
                                        (λ es h. (job, h, completed))
    where
      k : NamespacedName
      k = record req { name = backup.spec.pvc_name }

      Got : Pvc → Events C → Type 0
      Got pvc = Occurs (λ e. e ≡ got_pvc k (ok pvc))

  finished_branch :
      (b : PvcBackup) (o : Option Time)
      → b.status.finished_at ≡ o
      → is_zero o ≡ false
      → Spec C history R cfg req
          (λ es. Fetched req es b)
          (reconcile_finished C b (Option.get_or o (pos 0)))
          End
  finished_branch b none e nonzero = cc
  finished_branch b (some t) e nonzero =
      reconcile_finished-Permitted C history R req b t e (rw e nonzero)

  reconcile_backup-Permitted : Plain (reconcile_backup C lo cfg req)
  unfolding reconcile_backup
  reconcile_backup-Permitted = Triple-bind _ _ fetch_backup-Permitted λ b.
      Triple-if (is_zero b.status.finished_at) _ _
        (λ unfinished. Triple-weaken (reconcile_unfinished-Permitted b unfinished) (λ es h. tt))
        (λ finished. finished_branch b b.status.finished_at refl finished)

  -- In any world that records its requests, whatever it replies: each request that a reconcile of
  -- `req` adds is permitted by the requests and replies before it. A PVCBackup is deleted only
  -- after it was read as finished successfully and the listing of its namespace shows a backup of
  -- the same PVC that finished later; its snapshot, job and PVC are deleted only once it has
  -- finished successfully; a snapshot is made only of a PVC that was read; the temporary PVC and
  -- the job are created only after a ready snapshot was seen, and that PVC has an empty backup
  -- schedule; the backup is marked finished only after its job was seen completed; and no
  -- PVCBackup is created, no PVC changed and no PVCRestore written.
  pub backup-Permitted :
      (s : State C)
      → Extends (Permitted req) (history s.world) (history (reconcile C lo cfg req s).1.world)
  unfolding reconcile hist
  backup-Permitted s =
      ((Triple-bind {Mid = End} _ _ find_when_unset-Permitted λ _.
          Triple-bind {Mid = End} _ _
            (Triple-when (ignores lo cfg.namespaces cfg.exclude_namespaces req.namespace) _
              (λ _. Triple-exit _) (λ _ es h. tt))
            λ _. reconcile_backup-Permitted).at
        s tt).0
