-- ===== src/Client/Machine/Changes.antt =====
-- The rules for requests that update or delete an object, on an API that works.
use backsnap.Base.{◌≡◌, ◌≢◌, subst, none, some}
use backsnap.Kube.{key_of, NamespacedName, Pvc}
use backsnap.Api.{PvcBackup, PvcRestore}
use backsnap.Client.{Client, Reply, ok}
use backsnap.Client.Server.{Objects, IsServer, Answers, deleted, put}
use backsnap.Exec.{Exec, Exit, ◌>>=◌}
use backsnap.Exec.Ends.{Ends}
use backsnap.Client.Machine.{Machine, At, At-call}

module _ (C : Client) (objects : C.World → Objects) (S : IsServer C objects) (M : Machine C)
    {B : Type 0} {E : Exit C.Failure → M.State → Type 0} {Q : B → M.State → Type 0}
    {o : Objects} where
  pub At-update_backup_status :
      (x old : PvcBackup) (f : Reply C.Failure PvcBackup → Exec C.Failure M.State B)
      → o.backups (key_of x.meta) ≡ some old
      → (let y = record old { status = x.status } in
          Ends E
            (At C objects M (record o { backups = put (key_of x.meta) (some y) o.backups }))
            Q
            (f (ok y)))
      → Ends E (At C objects M o) Q (M.run _ (C.update_backup_status x) >>= f)
  At-update_backup_status x old f there k =
      let y = record old { status = x.status } in
      At-call C objects M (C.update_backup_status x) (ok y) _ f
        (λ w e.
          subst
            (λ z.
              z.backups (key_of x.meta) ≡ some old
              → Answers objects (C.update_backup_status x) w (ok y)
                  (record z { backups = put (key_of x.meta) (some y) z.backups }))
            e (S.update_backup_status-Answers x old w) there)
        k

  pub At-update_restore_status :
      (x old : PvcRestore) (f : Reply C.Failure PvcRestore → Exec C.Failure M.State B)
      → o.restores (key_of x.meta) ≡ some old
      → (let y = record old { status = x.status } in
          Ends E
            (At C objects M (record o { restores = put (key_of x.meta) (some y) o.restores }))
            Q
            (f (ok y)))
      → Ends E (At C objects M o) Q (M.run _ (C.update_restore_status x) >>= f)
  At-update_restore_status x old f there k =
      let y = record old { status = x.status } in
      At-call C objects M (C.update_restore_status x) (ok y) _ f
        (λ w e.
          subst
            (λ z.
              z.restores (key_of x.meta) ≡ some old
              → Answers objects (C.update_restore_status x) w (ok y)
                  (record z { restores = put (key_of x.meta) (some y) z.restores }))
            e (S.update_restore_status-Answers x old w) there)
        k

  pub At-update_pvc :
      (x : Pvc) (f : Reply C.Failure Pvc → Exec C.Failure M.State B)
      → o.pvcs (key_of x.meta) ≢ none
      → Ends E
          (At C objects M (record o { pvcs = put (key_of x.meta) (some x) o.pvcs }))
          Q
          (f (ok x))
      → Ends E (At C objects M o) Q (M.run _ (C.update_pvc x) >>= f)
  At-update_pvc x f there k =
      At-call C objects M (C.update_pvc x) (ok x) _ f
        (λ w e.
          subst
            (λ z.
              z.pvcs (key_of x.meta) ≢ none
              → Answers objects (C.update_pvc x) w (ok x)
                  (record z { pvcs = put (key_of x.meta) (some x) z.pvcs }))
            e (S.update_pvc-Answers x w) there)
        k

  pub At-delete_pvc :
      (k : NamespacedName) (f : Reply C.Failure Unit → Exec C.Failure M.State B)
      → Ends E
          (At C objects M (record o { pvcs = put k none o.pvcs }))
          Q
          (f (deleted S.missing (o.pvcs k)))
      → Ends E (At C objects M o) Q (M.run _ (C.delete_pvc k) >>= f)
  At-delete_pvc k f m =
      At-call C objects M (C.delete_pvc k) (deleted S.missing (o.pvcs k)) _ f
        (λ w e.
          subst
            (λ z.
              Answers objects (C.delete_pvc k) w (deleted S.missing (z.pvcs k))
                (record z { pvcs = put k none z.pvcs }))
            e (S.delete_pvc-Answers k w))
        m

  pub At-delete_snapshot :
      (k : NamespacedName) (f : Reply C.Failure Unit → Exec C.Failure M.State B)
      → Ends E
          (At C objects M (record o { snapshots = put k none o.snapshots }))
          Q
          (f (deleted S.missing (o.snapshots k)))
      → Ends E (At C objects M o) Q (M.run _ (C.delete_snapshot k) >>= f)
  At-delete_snapshot k f m =
      At-call C objects M (C.delete_snapshot k) (deleted S.missing (o.snapshots k)) _ f
        (λ w e.
          subst
            (λ z.
              Answers objects (C.delete_snapshot k) w (deleted S.missing (z.snapshots k))
                (record z { snapshots = put k none z.snapshots }))
            e (S.delete_snapshot-Answers k w))
        m

  pub At-delete_job :
      (k : NamespacedName) (f : Reply C.Failure Unit → Exec C.Failure M.State B)
      → Ends E
          (At C objects M (record o { jobs = put k none o.jobs }))
          Q
          (f (deleted S.missing (o.jobs k)))
      → Ends E (At C objects M o) Q (M.run _ (C.delete_job k) >>= f)
  At-delete_job k f m =
      At-call C objects M (C.delete_job k) (deleted S.missing (o.jobs k)) _ f
        (λ w e.
          subst
            (λ z.
              Answers objects (C.delete_job k) w (deleted S.missing (z.jobs k))
                (record z { jobs = put k none z.jobs }))
            e (S.delete_job-Answers k w))
        m
