-- ===== src/Client/Machine/Gets.antt =====
-- The rules for requests that read an object, on an API that works.
use backsnap.Base.{◌≡◌, subst, Option}
use backsnap.Kube.{NamespacedName, Pvc, VolumeSnapshot, Job}
use backsnap.Api.{PvcBackup, PvcRestore}
use backsnap.Client.{Client, Reply}
use backsnap.Client.Server.{Objects, IsServer, Answers, found}
use backsnap.Exec.{Exec, Exit, ◌>>=◌}
use backsnap.Exec.Ends.{Ends}
use backsnap.Client.Machine.{Machine, At, At-call}

module _ (C : Client) (objects : C.World → Objects) (S : IsServer C objects) (M : Machine C)
    {B : Type 0} {E : Exit C.Failure → M.State → Type 0} {Q : B → M.State → Type 0}
    {o : Objects} where
  pub At-get_backup :
      (k : NamespacedName) (v : Option PvcBackup)
      (f : Reply C.Failure PvcBackup → Exec C.Failure M.State B)
      → o.backups k ≡ v
      → Ends E (At C objects M o) Q (f (found S.missing v))
      → Ends E (At C objects M o) Q (M.run _ (C.get_backup k) >>= f)
  At-get_backup k v f there = At-call C objects M (C.get_backup k) (found S.missing v) o f (λ w e.
      subst (λ x. Answers objects (C.get_backup k) w (found S.missing x) o) there
        (subst (λ x. Answers objects (C.get_backup k) w (found S.missing (x.backups k)) x) e
          (S.get_backup-Answers k w)))

  pub At-get_restore :
      (k : NamespacedName) (v : Option PvcRestore)
      (f : Reply C.Failure PvcRestore → Exec C.Failure M.State B)
      → o.restores k ≡ v
      → Ends E (At C objects M o) Q (f (found S.missing v))
      → Ends E (At C objects M o) Q (M.run _ (C.get_restore k) >>= f)
  At-get_restore k v f there = At-call C objects M (C.get_restore k) (found S.missing v) o f (λ w e.
      subst (λ x. Answers objects (C.get_restore k) w (found S.missing x) o) there
        (subst (λ x. Answers objects (C.get_restore k) w (found S.missing (x.restores k)) x) e
          (S.get_restore-Answers k w)))

  pub At-get_pvc :
      (k : NamespacedName) (v : Option Pvc) (f : Reply C.Failure Pvc → Exec C.Failure M.State B)
      → o.pvcs k ≡ v
      → Ends E (At C objects M o) Q (f (found S.missing v))
      → Ends E (At C objects M o) Q (M.run _ (C.get_pvc k) >>= f)
  At-get_pvc k v f there = At-call C objects M (C.get_pvc k) (found S.missing v) o f (λ w e.
      subst (λ x. Answers objects (C.get_pvc k) w (found S.missing x) o) there
        (subst (λ x. Answers objects (C.get_pvc k) w (found S.missing (x.pvcs k)) x) e
          (S.get_pvc-Answers k w)))

  pub At-get_snapshot :
      (k : NamespacedName) (v : Option VolumeSnapshot)
      (f : Reply C.Failure VolumeSnapshot → Exec C.Failure M.State B)
      → o.snapshots k ≡ v
      → Ends E (At C objects M o) Q (f (found S.missing v))
      → Ends E (At C objects M o) Q (M.run _ (C.get_snapshot k) >>= f)
  At-get_snapshot k v f there =
      At-call C objects M (C.get_snapshot k) (found S.missing v) o f (λ w e.
        subst (λ x. Answers objects (C.get_snapshot k) w (found S.missing x) o) there
          (subst (λ x. Answers objects (C.get_snapshot k) w (found S.missing (x.snapshots k)) x) e
            (S.get_snapshot-Answers k w)))

  pub At-get_job :
      (k : NamespacedName) (v : Option Job) (f : Reply C.Failure Job → Exec C.Failure M.State B)
      → o.jobs k ≡ v
      → Ends E (At C objects M o) Q (f (found S.missing v))
      → Ends E (At C objects M o) Q (M.run _ (C.get_job k) >>= f)
  At-get_job k v f there = At-call C objects M (C.get_job k) (found S.missing v) o f (λ w e.
      subst (λ x. Answers objects (C.get_job k) w (found S.missing x) o) there
        (subst (λ x. Answers objects (C.get_job k) w (found S.missing (x.jobs k)) x) e
          (S.get_job-Answers k w)))
