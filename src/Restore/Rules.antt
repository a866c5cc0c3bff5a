-- ===== src/Restore/Rules.antt =====
-- Which requests the restore reconciler may send, by what it has seen before.
use backsnap.Base.{String, ◌≡◌, Bool, true, false, some, List, [], ◌⊎◌}
use backsnap.Base.Dict.{lookup, erase}
use backsnap.Go.Time.{is_zero}
use backsnap.Kube.{NamespacedName, Pvc, Job}
use backsnap.Api.{PvcRestore}
use backsnap.Client.{ok, err}
use backsnap.Client.History.{
  Event, got_restore, got_pvc, got_job, created_backup, created_pvc, created_snapshot, created_job,
  updated_pvc, updated_backup_status, updated_restore_status, deleted_backup, deleted_snapshot,
  deleted_job, deleted_pvc,
}
use backsnap.Exec.Trace.{Occurs}
use backsnap.Settings.{currently_restoring_annotation}

module _ {F : Type 0} (req : NamespacedName) where
  -- The event shows the PVCRestore of the request, as read or as stored by an update.
  abbrev pub RestoreIn : PvcRestore → Event F → Type 0
  RestoreIn r e =
      (e ≡ got_restore req (ok r)) ⊎ ((x : PvcRestore) × (e ≡ updated_restore_status x (ok r)))

  -- The event shows the PVC, as read or as created.
  abbrev pub PvcIn : Pvc → Event F → Type 0
  PvcIn p e =
      ((k : NamespacedName) × (e ≡ got_pvc k (ok p))) ⊎ ((x : Pvc) × (e ≡ created_pvc x (ok p)))

  abbrev pub JobIn : Job → Event F → Type 0
  JobIn j e = (e ≡ got_job req (ok j)) ⊎ ((x : Job) × (e ≡ created_job x (ok j)))

  -- A PVCRestore of the request was seen with this UID.
  abbrev pub UidSeen : String → List (Event F) → Type 0
  UidSeen uid es = (r : PvcRestore) × Occurs (RestoreIn r) es × (r.meta.uid ≡ uid)

  -- A PVC was seen that is marked with the UID.
  abbrev pub MarkedSeen : String → Pvc → List (Event F) → Type 0
  MarkedSeen uid p es =
      Occurs (PvcIn p) es × (lookup currently_restoring_annotation p.meta.annotations ≡ some uid)

  -- A job of the request was seen that is marked with the UID and has completed.
  abbrev pub CompletedSeen : String → List (Event F) → Type 0
  CompletedSeen uid es =
      (j : Job) × Occurs (JobIn j) es
      × (lookup currently_restoring_annotation j.meta.annotations ≡ some uid)
      × (is_zero j.completion_time ≡ false)

-- A reply that was an error of kind "not found".
abbrev pub Missing : {F : Type 0} → (F → Bool) → NamespacedName → List (Event F) → Type 0
Missing {F} is_not_found k es =
    (f : F) × (is_not_found f ≡ true) × Occurs (λ e. e ≡ got_pvc k (err f)) es

-- `x` is the PVC without its restore annotation.
abbrev pub Unmarked : Pvc → Pvc → Type 0
Unmarked x p = x ≡ record p {
  meta = record p.meta { annotations = erase currently_restoring_annotation p.meta.annotations };
}

-- A PVCRestore is stored as unfinished, as failed, or after its PVC was stored without its mark.
abbrev pub StatusAllowed : {F : Type 0} → PvcRestore → List (Event F) → Type 0
StatusAllowed r es =
    (is_zero r.status.finished_at ≡ true)
    ⊎ (r.status.result ≡ some "Failed")
    ⊎ ((x : Pvc) × (y : Pvc) × Occurs (λ e. e ≡ updated_pvc x (ok y)) es)

-- Reads are always allowed. Requests that are no part of a restore are never sent.
abbrev pub Permitted :
    {F : Type 0} → (F → Bool) → NamespacedName → Event F → List (Event F) → Type 0
Permitted nf req (created_pvc x _) es =
    (uid : String) × UidSeen req uid es
    × (lookup currently_restoring_annotation x.meta.annotations ≡ some uid)
    × Missing nf (record req { name = x.meta.name }) es
    × (x.meta.owner_references ≡ [])
Permitted nf req (created_job _ _) es =
    (uid : String) × (p : Pvc) × UidSeen req uid es × MarkedSeen req uid p es
Permitted nf req (updated_pvc x _) es =
    (uid : String) × (p : Pvc) × UidSeen req uid es
    × MarkedSeen req uid p es
    × CompletedSeen req uid es
    × Unmarked x p
Permitted nf req (updated_restore_status r _) es = StatusAllowed r es
Permitted nf req (updated_backup_status _ _) es = ⊥
Permitted nf req (created_backup _ _) es = ⊥
Permitted nf req (created_snapshot _ _) es = ⊥
Permitted nf req (deleted_backup _ _) es = ⊥
Permitted nf req (deleted_snapshot _ _) es = ⊥
Permitted nf req (deleted_job _ _) es = ⊥
Permitted nf req (deleted_pvc _ _) es = ⊥
Permitted nf req _ es = Unit
