-- ===== src/Automatic/Handover.antt =====
-- The backup that the creator makes, as the backup reconciler finds it, on an API that works.
use backsnap.Base.{
  ◌≡◌, ◌≢◌, refl, sym, ap, ◌∙◌, String, ◌<>◌, false, none, some, List, str_eq, eq_iff, Bool-cases,
  inl, inr,
}
use backsnap.Go.Time.{Time}
use backsnap.Go.Lo.{Lo}
use backsnap.Kube.{key_of, NamespacedName, ObjectMeta, Pvc}
use backsnap.Client.{Client}
use backsnap.Client.Server.{Objects, IsServer, put, put_self}
use backsnap.Client.Machine.{At, At-any, world_machine}
use backsnap.Client.Machine.Creates.{At-create_backup}
use backsnap.Exec.{Exit, ◌>>=◌}
use backsnap.Exec.Ends.{Ends, Ends-pure, Ends_state}
use backsnap.Automatic.Schedule.{Cron, Float}
use backsnap.Automatic.Requests.{AutomaticConfig}
use backsnap.Automatic.Reconcile.{backup_name, new_backup, create_backup, wait_until}
use backsnap.Backup.Progress.Phase.{phase_of, Stage, asked, snapshotting}
use backsnap.Base.{◌∷◌, true}
use backsnap.Settings.{ignores}
use backsnap.Backup.State.{Config, State, backup_qualified_name}
use backsnap.Backup.Reconcile as Backup
use backsnap.Backup.Progress.Refines.{admits}
use backsnap.Backup.Progress.Turns.{Run, Finishes, Turn, reconciles, comes, remaining}
use backsnap.Backup.Progress.Fair.{backup_Finishes}
use Prim.Native.Char.{Char}
use Prim.Native.String.append

some-ne-none : {A : Type 0} (a : A) → some a ≢ none
some-ne-none a e = cc

abbrev tail : String → String
tail String.[] = String.[]
tail (String.◌∷◌ c s) = s

append_same : (p q : String) → p <> q ≡ p → q ≡ ""
append_same String.[] q h = sym (append.nil q) ∙ h
append_same (String.◌∷◌ c p) q h = append_same p q (ap tail (sym (append.cons c p q) ∙ h))

-- A text is not itself with something behind it.
append_longer : (p q : String) → q ≢ "" → str_eq (p <> q) p ≡ false
append_longer p q h = elim (Bool-cases (str_eq (p <> q) p)) [
  | inl e ↦ absurd (h (append_same p q ((eq_iff (p <> q) p).0 e)))
  | inr e ↦ e
]

dash_ne : (d : String) → "-" <> d ≢ ""
dash_ne d e = first_ne (sym (append.cons "-" String.[] d) ∙ e)
  where
    first_ne : {c : Char} {s : String} → String.◌∷◌ c s ≢ ""
    first_ne h = cc

module _ (C : Client) (objects : C.World → Objects) (S : IsServer C objects) (lo : Lo) (cron : Cron)
    (fl : Float) (cfg : AutomaticConfig) (pvc : Pvc) (now : Time) where
  abbrev pub k : NamespacedName
  k = record { namespace = pvc.meta.namespace; name = backup_name pvc.meta.name now }

  -- The backup is stored, with metadata of the server.
  record Created (o o' : Objects) : Type 0 where
    pub meta : ObjectMeta
    pub key : key_of meta ≡ k
    pub stored : o' ≡ record o {
      backups = put k (some (record (new_backup pvc now) { meta = meta })) o.backups;
    }

  create_backup-Created :
      {E : Exit C.Failure → C.World → Type 0} (o : Objects) (e : cron.Expression)
      → o.backups k ≡ none
      → Ends E
          (At C objects (world_machine C) o)
          (λ r w. Created o (objects w))
          (create_backup C lo cron fl cfg e pvc now)
  unfolding create_backup new_backup wait_until ◌>>=◌
  create_backup-Created o e absent =
      rw
        (S.set_controller_reference-ok "PersistentVolumeClaim" pvc.meta (new_backup pvc now).meta
          refl refl)
        (At-create_backup C objects S (world_machine C) _ _ absent λ w.
          At-any C objects (world_machine C) C.now _ S.now-objects λ t.
            Ends-pure _
              λ w' h. record { meta = S.assigned w _; key = S.assigned-key w _; stored = h.0 })

  -- On an API that works, a backup that the creator makes starts in the phase of a backup that is
  -- asked for: its name is not that of its PVC, so the objects that are made for it are others than
  -- the PVC. Conditions: the PVC is there under its own name, and there is neither a backup nor a
  -- snapshot of the new backup's name.
  pub creator-Stage :
      (w : C.World) (e : cron.Expression) (rs : List String)
      → (objects w).pvcs (key_of pvc.meta) ≡ some pvc
      → (objects w).backups k ≡ none
      → (objects w).snapshots k ≡ none
      → Stage C objects k pvc asked rs (record {
        world = (create_backup C lo cron fl cfg e pvc now w).1;
        current_running_backups = some rs;
      })
  unfolding new_backup backup_name
  creator-Stage w e rs there absent fresh =
      let w' = (create_backup C lo cron fl cfg e pvc now w).1 in
      let made =
        Ends_state (λ z. Created (objects w) (objects z)) _
          (create_backup-Created (objects w) e absent) w (refl, tt) in
      record {
        backup = record (new_backup pvc now) { meta = made.meta };
        key = made.key;
        stored = ap (λ (z : Objects). z.backups k) made.stored ∙ put_self _ _ _;
        source = ap (λ (z : Objects). z.pvcs (key_of pvc.meta)) made.stored ∙ there;
        phase =
            ap
              (λ (z : Objects).
                phase_of (record (new_backup pvc now) { meta = made.meta }) (z.snapshots k)
                  (z.jobs k))
              made.stored
            ∙ rw fresh refl;
        sized = λ v h.
            absurd
              (some-ne-none v (sym h ∙ (ap (λ (z : Objects). z.snapshots k) made.stored ∙ fresh)));
        apart =
            ap (λ n. str_eq n.name pvc.meta.name) made.key
            ∙ append_longer pvc.meta.name _ (dash_ne _);
        running = refl;
      }

  -- On an API that works, a backup that the creator makes, and that gets a place, finishes: in every
  -- run that starts with a reconcile of it, and in which the cluster and the reconciler then have
  -- the turns that it waits for, in their order and with any others between them, it is finished at
  -- some point and has given its place back. Conditions: those on the PVC and the name of the new
  -- backup, its namespace is watched, the maximum lets it in, and the turns of the cluster and of
  -- others move the backup on as they should and leave it its place.
  pub creator_Finishes :
      (config : Config) (w : C.World) (e : cron.Expression) (rs : List String) {s' : State C}
      {ts : List Turn}
      → let s : State C = record {
        world = (create_backup C lo cron fl cfg e pvc now w).1;
        current_running_backups = some rs;
      } in
        (objects w).pvcs (key_of pvc.meta) ≡ some pvc
        → (objects w).backups k ≡ none
        → (objects w).snapshots k ≡ none
        → ignores lo config.namespaces config.exclude_namespaces pvc.meta.namespace ≡ false
        → admits config (backup_qualified_name k) rs ≡ true
        → Run C objects lo config k pvc (Backup.reconcile C lo config k s).1 ts s'
        → comes (remaining snapshotting) ts ≡ true
        → Finishes C objects lo config k pvc s (reconciles ∷ ts) s'
  creator_Finishes config w e rs there absent fresh watched room run fair =
      backup_Finishes C objects lo config k pvc S watched asked rs
        (creator-Stage w e rs there absent fresh) refl room run fair
