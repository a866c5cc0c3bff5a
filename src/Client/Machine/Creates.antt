-- ===== src/Client/Machine/Creates.antt =====
-- The rules for requests that create an object, on an API that works.
use backsnap.Base.{◌≡◌, subst, none, some}
use backsnap.Kube.{key_of, Pvc, VolumeSnapshot, Job}
use backsnap.Api.{PvcBackup}
use backsnap.Client.{Client, Reply, ok}
use backsnap.Client.Server.{Objects, IsServer, Answers, put}
use backsnap.Exec.{Exec, Exit, ◌>>=◌}
use backsnap.Exec.Ends.{Ends}
use backsnap.Client.Machine.{Machine, At, At-step}

module _ (C : Client) (objects : C.World → Objects) (S : IsServer C objects) (M : Machine C)
    {B : Type 0} {E : Exit C.Failure → M.State → Type 0} {Q : B → M.State → Type 0}
    {o : Objects} where
  pub At-create_backup :
      (x : PvcBackup) (f : Reply C.Failure PvcBackup → Exec C.Failure M.State B)
      → o.backups (key_of x.meta) ≡ none
      → ((w : C.World)
          → let y = record x { meta = S.assigned w x.meta } in
            Ends E
              (At C objects M (record o { backups = put (key_of x.meta) (some y) o.backups }))
              Q
              (f (ok y)))
      → Ends E (At C objects M o) Q (M.run _ (C.create_backup x) >>= f)
  At-create_backup x f absent k = At-step C objects M (C.create_backup x) f λ w e.
      let y = record x { meta = S.assigned w x.meta } in
      (
        ok y,
        record o { backups = put (key_of x.meta) (some y) o.backups },
        subst
            (λ z.
              z.backups (key_of x.meta) ≡ none
              → Answers objects (C.create_backup x) w (ok y)
                  (record z { backups = put (key_of x.meta) (some y) z.backups }))
            e (S.create_backup-Answers x w) absent,
        k w,
      )

  pub At-create_pvc :
      (x : Pvc) (f : Reply C.Failure Pvc → Exec C.Failure M.State B)
      → o.pvcs (key_of x.meta) ≡ none
      → ((w : C.World)
          → let y = record x { meta = S.assigned w x.meta } in
            Ends E
              (At C objects M (record o { pvcs = put (key_of x.meta) (some y) o.pvcs }))
              Q
              (f (ok y)))
      → Ends E (At C objects M o) Q (M.run _ (C.create_pvc x) >>= f)
  At-create_pvc x f absent k = At-step C objects M (C.create_pvc x) f λ w e.
      let y = record x { meta = S.assigned w x.meta } in
      (
        ok y,
        record o { pvcs = put (key_of x.meta) (some y) o.pvcs },
        subst
            (λ z.
              z.pvcs (key_of x.meta) ≡ none
              → Answers objects (C.create_pvc x) w (ok y)
                  (record z { pvcs = put (key_of x.meta) (some y) z.pvcs }))
            e (S.create_pvc-Answers x w) absent,
        k w,
      )

  pub At-create_snapshot :
      (x : VolumeSnapshot) (f : Reply C.Failure VolumeSnapshot → Exec C.Failure M.State B)
      → o.snapshots (key_of x.meta) ≡ none
      → ((w : C.World)
          → let y = record x { meta = S.assigned w x.meta } in
            Ends E
              (At C objects M (record o { snapshots = put (key_of x.meta) (some y) o.snapshots }))
              Q
              (f (ok y)))
      → Ends E (At C objects M o) Q (M.run _ (C.create_snapshot x) >>= f)
  At-create_snapshot x f absent k = At-step C objects M (C.create_snapshot x) f λ w e.
      let y = record x { meta = S.assigned w x.meta } in
      (
        ok y,
        record o { snapshots = put (key_of x.meta) (some y) o.snapshots },
        subst
            (λ z.
              z.snapshots (key_of x.meta) ≡ none
              → Answers objects (C.create_snapshot x) w (ok y)
                  (record z { snapshots = put (key_of x.meta) (some y) z.snapshots }))
            e (S.create_snapshot-Answers x w) absent,
        k w,
      )

  pub At-create_job :
      (x : Job) (f : Reply C.Failure Job → Exec C.Failure M.State B)
      → o.jobs (key_of x.meta) ≡ none
      → ((w : C.World)
          → let y = record x { meta = S.assigned w x.meta } in
            Ends E
              (At C objects M (record o { jobs = put (key_of x.meta) (some y) o.jobs }))
              Q
              (f (ok y)))
      → Ends E (At C objects M o) Q (M.run _ (C.create_job x) >>= f)
  At-create_job x f absent k = At-step C objects M (C.create_job x) f λ w e.
      let y = record x { meta = S.assigned w x.meta } in
      (
        ok y,
        record o { jobs = put (key_of x.meta) (some y) o.jobs },
        subst
            (λ z.
              z.jobs (key_of x.meta) ≡ none
              → Answers objects (C.create_job x) w (ok y)
                  (record z { jobs = put (key_of x.meta) (some y) z.jobs }))
            e (S.create_job-Answers x w) absent,
        k w,
      )
