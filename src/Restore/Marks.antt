-- ===== src/Restore/Marks.antt =====
-- What the tests and the small helpers of a restore tell: of marks, Jobs and results.
use backsnap.Base.{
  String, ◌≡◌, ap, true, false, not, not-eq-false, Option, none, some, eq_iff, arith,
}
use backsnap.Base.Dict.{Dict, lookup, lookup-insert}
use backsnap.Go.Time.{Time}
use backsnap.Kube.{Job}
use backsnap.Api.{PvcRestore}
use backsnap.Client.{Reply, ok, err}
use backsnap.Settings.{currently_restoring_annotation}
use backsnap.Restore.Objects.{restoring_annotations, set_restore_finished}
use backsnap.Restore.Steps.{is_uid, is_marked, with_restore}

is_uid_sound : (o : Option String) (uid : String) → is_uid o uid ≡ true → o ≡ some uid
is_uid_sound none uid h = cc
is_uid_sound (some u) uid h = ap some ((eq_iff u uid).0 h)

pub is_marked_sound :
    (d : Dict String) (uid : String)
    → not (is_marked d uid) ≡ false
    → lookup currently_restoring_annotation d ≡ some uid
unfolding is_marked
is_marked_sound d uid h = is_uid_sound _ uid (not-eq-false _ h)

pub with_restore_sound :
    {F : Type 0} (r : PvcRestore) (reply : Reply F Job) (a : Job × PvcRestore)
    → with_restore r reply ≡ ok a
    → (reply ≡ ok a.0) × (a.1 ≡ r)
with_restore_sound r (ok j) a h = ground arith
with_restore_sound r (err e) a h = cc

pub marked :
    (r : PvcRestore)
    → lookup currently_restoring_annotation (restoring_annotations r) ≡ some r.meta.uid
unfolding restoring_annotations
marked r = rw lookup-insert

-- What `setRestoreFinished` leaves.
pub set_restore_finished-result :
    (now : Time) (result : String) (r r' : PvcRestore)
    → set_restore_finished now result r ≡ some r'
    → r'.status.result ≡ some result
unfolding set_restore_finished
set_restore_finished-result now result r r' h = ground arith
