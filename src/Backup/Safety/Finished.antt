-- ===== src/Backup/Safety/Finished.antt =====
-- The requests for a finished backup: it is cleaned up, and deleted only if a newer one exists.
use backsnap.Base.{◌≡◌, refl, ap, String, true, false, not, inr, List, Option, none, some}
use backsnap.Base.{arith, eq_iff, not-eq-false}
use backsnap.Base.Int.{pos, leb_ℤ, ◌<ℤ◌}
use backsnap.Go.Time.{Time, Duration, is_zero, add, sub}
use backsnap.Kube.{NamespacedName}
use backsnap.Api.{PvcBackup}
use backsnap.Client.{Client, ok}
use backsnap.Client.History.{
  Events, IsRecorded, listed_backups, deleted_backup, deleted_snapshot, deleted_job, deleted_pvc,
}
use backsnap.Exec.Trace.{
  Occurs, Triple, Triple-pure, Triple-or_fail, Triple-if, Triple-event, Triple-bind,
}
use backsnap.Backup.State.{key_of}
use backsnap.Backup.Finished.{
  succeeded, finished_after, has_older_siblings, expire, clean_up, reconcile_finished,
}
use backsnap.Backup.Rules.{Fetched, FinishedSeen, NewerSibling, Permitted}
use backsnap.Client.Calls.{IsStable, Triple-send, Triple-request, Triple-or_absent}
use backsnap.Backup.Safety.Calls.{hist, call-Sends, Triple-quiet_call, any_sound}

succeeded_sound : (r : Option String) → succeeded r ≡ true → r ≡ some "Succeeded"
unfolding succeeded
succeeded_sound none h = cc
succeeded_sound (some x) h = ap some ((eq_iff x "Succeeded").0 h)

finished_after_sound :
    (o : Option Time) (t : Time) → finished_after o t ≡ true → (u : Time) × (o ≡ some u) × (t <ℤ u)
finished_after_sound none t h = cc
finished_after_sound (some u) t h = (u, refl, ground arith)

module _ (C : Client) (history : C.World → Events C) (R : IsRecorded C history)
    (req : NamespacedName) (b : PvcBackup) (t : Time) (finished : b.status.finished_at ≡ some t)
    (nonzero : is_zero b.status.finished_at ≡ false) where
  abbrev pub Seen : Events C → Type 0
  Seen es = Fetched req es b

  stable : IsStable Seen
  stable e es h = inr h

  abbrev pub Anything : {A : Type 0} → A → Events C → Type 0
  Anything _ _ = Unit

  module _ (ok_result : b.status.result ≡ some "Succeeded") where
    abbrev seen : (es : Events C) → Seen es → FinishedSeen req es (key_of b.meta)
    seen es h = record {
      backup = b;
      fetched = h;
      key = refl;
      finished = nonzero;
      succeeded = ok_result;
    }

    clean_up-Permitted :
        (d : Duration) → Triple (Permitted req) (hist C history) Seen (clean_up C b d) Anything
    unfolding clean_up
    clean_up-Permitted d =
        Triple-bind _ _
          (Triple-send _ _ (call-Sends _ (deleted_snapshot k) (R.delete_snapshot-event _)) stable
            (λ _. seen))
          λ r₁. Triple-bind _ _ (Triple-or_absent C r₁) λ _.
            Triple-bind _ _
              (Triple-send _ _ (call-Sends _ (deleted_job k) (R.delete_job-event _)) stable
                (λ _. seen))
              λ r₂. Triple-bind _ _ (Triple-or_absent C r₂) λ _.
                Triple-bind _ _
                  (Triple-send _ _ (call-Sends _ (deleted_pvc k) (R.delete_pvc-event _)) stable
                    (λ _. seen))
                  λ r₃. Triple-bind _ _ (Triple-or_absent C r₃) λ _. Triple-pure _ (λ es h. tt)
      where
        k : NamespacedName
        k = key_of b.meta

    newer :
        (siblings : List PvcBackup) (es : Events C)
        → has_older_siblings b t siblings ≡ true
        → Occurs (λ e. e ≡ listed_backups (some b.meta.namespace) (ok siblings)) es
        → NewerSibling req es b
    unfolding has_older_siblings
    newer siblings es h listed =
        let (sibling, mem, q) = any_sound _ siblings h in
        let (later, e, n) = finished_after_sound sibling.status.finished_at t (ground arith) in
        record {
          siblings = siblings;
          listed = listed;
          sibling = sibling;
          mem = mem;
          same_pvc = (eq_iff sibling.spec.pvc_name b.spec.pvc_name).0 (ground arith);
          at = t;
          later = later;
          finished_at = finished;
          sibling_finished_at = e;
          newer = n;
        }

    expire-Permitted : Triple (Permitted req) (hist C history) Seen (expire C b t) Anything
    unfolding expire
    expire-Permitted =
        Triple-bind _ _
          (Triple-request _ _
            (call-Sends _ (listed_backups (some b.meta.namespace)) (R.list_backups-event _)) stable
            (λ _ es h. tt))
          λ reply.
            Triple-bind _ _
              (Triple-or_fail {Post = λ siblings es. Listed siblings es × Seen es} reply
                (λ siblings es e h. rw e at h))
              λ siblings.
                Triple-if (not (has_older_siblings b t siblings)) _ _
                  (λ _. Triple-pure _ (λ es h. tt))
                  λ older.
                    Triple-bind {Mid = Anything} _ _
                      (Triple-event _ _
                        (call-Sends _ (deleted_backup (key_of b.meta)) (R.delete_backup-event _))
                        (λ r es h.
                          ((seen es h.1, newer siblings es (not-eq-false _ older) h.0), tt)))
                      λ deleted.
                        Triple-bind {Mid = Anything} _ _ (Triple-or_fail deleted (λ a es e h. tt))
                          λ _. Triple-pure _ (λ es h. tt)
      where
        Listed : List PvcBackup → Events C → Type 0
        Listed siblings es =
            Occurs (λ e. e ≡ listed_backups (some b.meta.namespace) (ok siblings)) es

  pub reconcile_finished-Permitted :
      Triple (Permitted req) (hist C history) Seen (reconcile_finished C b t) Anything
  unfolding reconcile_finished
  reconcile_finished-Permitted =
      Triple-if (not (succeeded b.status.result)) _ _ (λ _. Triple-pure _ (λ es h. tt))
        λ good. Triple-bind _ _ (Triple-quiet_call _ R.clock_now-event) λ now.
          Triple-if (leb_ℤ (sub (add t b.spec.ttl) now) (pos 0)) _ _
            (λ _. expire-Permitted (successful good)) (λ _. clean_up-Permitted (successful good) _)
    where
      successful : not (succeeded b.status.result) ≡ false → b.status.result ≡ some "Succeeded"
      successful good = succeeded_sound _ (not-eq-false _ good)
