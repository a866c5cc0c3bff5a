-- ===== src/Restore/Progress/Phase.antt =====
-- A restore as an abstract machine: its phases, and what a reconcile does to them.
use backsnap.Base.{◌≡◌, String, Bool, true, false, Option, none, some, str_eq, if◌then◌else◌}
use backsnap.Base.Dict.{lookup}
use backsnap.Go.Time.{is_zero}
use backsnap.Kube.{key_of, NamespacedName, Pvc, Job}
use backsnap.Api.{PvcRestore}
use backsnap.Client.Server.{Objects}
use backsnap.Settings.{currently_restoring_annotation}
use backsnap.Restore.Objects.{target_of}
use backsnap.Restore.Steps.{is_marked}

-- It has no Job; its PVC or Job is that of another; its Job runs; its Job has completed.
pub data Phase : Type 0 where
  asked blocked restoring restored succeeded failed : Phase

abbrev pub phase_of_job : PvcRestore → Option Job → Phase
phase_of_job r none = asked
phase_of_job r (some j) =
    if is_marked j.meta.annotations r.meta.uid
    then if is_zero j.completion_time then restoring else restored
    else blocked

-- A PVC that is missing is made.
abbrev pub phase_of_pvc : PvcRestore → Option Pvc → Option Job → Phase
phase_of_pvc r none job = phase_of_job r job
phase_of_pvc r (some p) job =
    if is_marked p.meta.annotations r.meta.uid then phase_of_job r job else blocked

abbrev pub phase_of_status : Option String → Phase
phase_of_status none = failed
phase_of_status (some result) = if str_eq result "Succeeded" then succeeded else failed

-- The phase, as the code looks at the objects.
abbrev pub phase_of : PvcRestore → Option Pvc → Option Job → Phase
phase_of r pvc job =
    if is_zero r.status.finished_at then phase_of_pvc r pvc job else phase_of_status r.status.result

-- What one reconcile does.
abbrev pub advance : Phase → Phase
advance asked = restoring
advance blocked = failed
advance restoring = restoring
advance restored = succeeded
advance succeeded = succeeded
advance failed = failed

abbrev pub is_over : Phase → Bool
is_over succeeded = true
is_over failed = true
is_over _ = false

-- The PVC that a restore that has succeeded leaves carries no mark.
abbrev pub Freed : Phase → Option Pvc → Type 0
Freed succeeded none = ⊥
Freed succeeded (some p) = lookup currently_restoring_annotation p.meta.annotations ≡ none
Freed _ pvc = Unit

abbrev pub target_key : PvcRestore → NamespacedName
target_key r = record (key_of r.meta) { name = target_of r }

-- Where the objects are `o`, the restore with key `k` is in phase `p`.
pub record Stage (k : NamespacedName) (p : Phase) (o : Objects) : Type 0 where
  pub restore : PvcRestore
  pub key : key_of restore.meta ≡ k
  pub stored : o.restores k ≡ some restore
  pub target : str_eq (target_of restore) "" ≡ false
  pub phase : phase_of restore (o.pvcs (target_key restore)) (o.jobs k) ≡ p
  -- An object is stored under its own name.
  pub named : (v : Pvc) → o.pvcs (target_key restore) ≡ some v → key_of v.meta ≡ target_key restore
  pub freed : Freed p (o.pvcs (target_key restore))
