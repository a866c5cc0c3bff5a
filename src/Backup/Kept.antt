-- ===== src/Backup/Kept.antt =====
-- What every reconcile of a backup keeps: a property of the state that the calls keep, and that the
-- steps which take or give back a place of the backup keep.
use backsnap.Base.{◌≡◌, refl, String, List, Option, none, some}
use backsnap.Go.Time.{Time, Duration, is_zero}
use backsnap.Go.Lo.{Lo}
use backsnap.Kube.{NamespacedName, Pvc, VolumeSnapshot, Quantity}
use backsnap.Api.{PvcBackup}
use backsnap.Client.{Client, Reply, ok, err}
use backsnap.Client.Actions.{or_absent, or_create, or_panic, or_wrap}
use backsnap.Exec.{Exec, Step, next, stop, ◌>>=◌}
use backsnap.Exec.Keeps.{Keeps, keeps_rules, Keeps-exit, Keeps-if, Keeps-when}
use backsnap.Exec.Ends.{Ends, Post, Ends-pure, Ends-exit, Ends-if, Ends-bind, Ends-fact, Ends_state}
use backsnap.Backup.State.{Config, State, call, sleep, forget, key_of, backup_qualified_name}
use backsnap.Backup.Finished.{expire, clean_up, reconcile_finished}
use backsnap.Backup.Steps.{
  admit, start_if_unset, mark_started, ensure_snapshot, create_snapshot_pvc, ensure_snapshot_pvc,
  ensure_job, finished_backup, finish,
}
use backsnap.Backup.Reconcile.{
  find_if_none, find_when_unset, or_forget, fetch_backup, reconcile_unfinished, reconcile_backup,
  reconcile,
}

-- `P` is kept by every call, and where a backup with a name of `Own` takes or gives back its place;
-- and where it holds the running backups are known.
pub record IsKept (C : Client) (cfg : Config) (Own : String → Type 0) (P : State C → Type 0)
    : Type 0 where
  pub move : (s : State C) (w : C.World) → P s → P (record s { world = w })
  pub forgotten : (name : String) → Own name → Keeps P (forget C name)
  pub admitted : (name : String) → Own name → Keeps P (admit C cfg name)
  pub known : (s : State C) → P s → (rs : List String) × (s.current_running_backups ≡ some rs)

module _ (C : Client) (lo : Lo) (cfg : Config) (Own : String → Type 0) (P : State C → Type 0)
    (I : IsKept C cfg Own P) where
  call-Kept : {A : Type 0} (op : C.World → A × C.World) → Keeps P (call C op)
  unfolding call
  call-Kept op = record { at = λ s h. I.move s (op s.world).1 h }

  forget-Kept : (name : String) → Own name → Keeps P (forget C name)
  forget-Kept name own = I.forgotten name own

  admit-Kept : (name : String) → Own name → Keeps P (admit C cfg name)
  admit-Kept name own = I.admitted name own

  sleep-Kept : (d : Duration) → Keeps P (sleep C d)
  unfolding sleep
  sleep-Kept d = record { at = λ s h. I.move s (C.sleep d s.world) h }

  or_absent-Kept : (r : Reply C.Failure Unit) → Keeps P (or_absent C r)
  unfolding or_absent
  or_absent-Kept (ok _) = search keeps_rules
  or_absent-Kept (err _) = search keeps_rules

  clean_up-Kept : (b : PvcBackup) (d : Time) → Keeps P (clean_up C b d)
  unfolding clean_up
  clean_up-Kept b d = search (keeps_rules, call-Kept, or_absent-Kept) depth 20

  start_if_unset-Kept : (b : PvcBackup) (o : Option Time) → Keeps P (start_if_unset C cfg b o)
  unfolding start_if_unset
  start_if_unset-Kept b (some _) = search keeps_rules
  start_if_unset-Kept b none = search (keeps_rules, call-Kept) depth 20

  or_create-Kept :
      {A : Type 0} (r : Reply C.Failure A) (create : Exec C.Failure (State C) A)
      → Keeps P create
      → Keeps P (or_create C r create)
  unfolding or_create
  or_create-Kept (ok _) create k = search keeps_rules
  or_create-Kept (err e) create k = Keeps-if (C.is_not_found e) _ _ k (Keeps-exit _)

  create_snapshot_pvc-Kept :
      (b : PvcBackup) (v : VolumeSnapshot) (size : Option Quantity)
      → Keeps P (create_snapshot_pvc C cfg b v size)
  unfolding create_snapshot_pvc
  create_snapshot_pvc-Kept b v none = search keeps_rules
  create_snapshot_pvc-Kept b v (some size) = search (keeps_rules, call-Kept) depth 20

  ensure_snapshot-Kept :
      (req : NamespacedName) (b : PvcBackup) (pvc : Pvc) → Keeps P (ensure_snapshot C cfg req b pvc)
  unfolding ensure_snapshot
  ensure_snapshot-Kept req b pvc = search (keeps_rules, call-Kept, or_create-Kept) depth 20

  ensure_snapshot_pvc-Kept :
      (req : NamespacedName) (b : PvcBackup) (v : VolumeSnapshot)
      → Keeps P (ensure_snapshot_pvc C cfg req b v)
  unfolding ensure_snapshot_pvc
  ensure_snapshot_pvc-Kept req b v =
      search (keeps_rules, call-Kept, or_create-Kept, create_snapshot_pvc-Kept) depth 20

  ensure_job-Kept :
      (req : NamespacedName) (b : PvcBackup) (pvc snapshot_pvc : Pvc)
      → Keeps P (ensure_job C cfg lo req b pvc snapshot_pvc)
  unfolding ensure_job
  ensure_job-Kept req b pvc snapshot_pvc = search (keeps_rules, call-Kept, or_create-Kept) depth 20

  or_panic-Kept : {A : Type 0} (o : Option A) → Keeps P (or_panic C o)
  unfolding or_panic
  or_panic-Kept none = search keeps_rules
  or_panic-Kept (some _) = search keeps_rules

  or_wrap-Kept : (message : String) (r : Reply C.Failure Unit) → Keeps P (or_wrap C message r)
  unfolding or_wrap
  or_wrap-Kept message (ok _) = search keeps_rules
  or_wrap-Kept message (err _) = search keeps_rules

  finish-Kept :
      (req : NamespacedName) (name : String) (b : PvcBackup)
      → Own name
      → Keeps P (finish C cfg req name b)
  unfolding finish finished_backup
  finish-Kept req name b own =
      search (keeps_rules, call-Kept, or_panic-Kept, or_wrap-Kept, sleep-Kept, forget-Kept) depth 30

  reconcile_finished-Kept : (b : PvcBackup) (t : Time) → Keeps P (reconcile_finished C b t)
  unfolding reconcile_finished expire
  reconcile_finished-Kept b t = search (keeps_rules, call-Kept, clean_up-Kept) depth 30

  reconcile_unfinished-Kept :
      (req : NamespacedName) (b : PvcBackup)
      → Own (backup_qualified_name (key_of b.meta))
      → Keeps P (reconcile_unfinished C lo cfg req b)
  unfolding reconcile_unfinished mark_started
  reconcile_unfinished-Kept req b own =
      search
        (
          keeps_rules, call-Kept, admit-Kept, start_if_unset-Kept, ensure_snapshot-Kept,
          ensure_snapshot_pvc-Kept, ensure_job-Kept, finish-Kept,
        )
        depth 40

  Keeps-Ends :
      {A : Type 0} (m : Exec C.Failure (State C) A) → Keeps P m → Ends (λ e. P) P (λ a. P) m
  Keeps-Ends m k = record { at = λ s h. kept (m s).0 (m s).1 (k.at s h) }
    where
      kept : {A : Type 0} (r : Step C.Failure A) (s : State C) → P s → Post (λ a. P) (λ e. P) (r, s)
      kept (next a) s h = h
      kept (stop e) s h = h

  module _ (req : NamespacedName) (own : Own (backup_qualified_name req))
      (fetches : (w : C.World) (b : PvcBackup)
        → (C.get_backup req w).0 ≡ ok b
        → Own (backup_qualified_name (key_of b.meta))) where
    or_forget-Ends :
        (r : Reply C.Failure PvcBackup)
        → ((b : PvcBackup) → r ≡ ok b → Own (backup_qualified_name (key_of b.meta)))
        → Ends
            (λ e. P)
            P
            (λ b s. Own (backup_qualified_name (key_of b.meta)) × P s)
            (or_forget C lo cfg req r)
    unfolding or_forget ◌>>=◌
    or_forget-Ends (ok b) mine = Ends-pure b (λ s h. (mine b refl, h))
    or_forget-Ends (err e) mine =
        Ends-if (C.is_not_found e) _ _
          (λ _. Ends-bind _ _ (Keeps-Ends _ (I.forgotten _ own)) (λ _. Ends-exit _ (λ s h. h)))
          (λ _. Ends-exit _ (λ s h. h))

    fetch_backup-Ends :
        Ends
          (λ e. P)
          P
          (λ b s. Own (backup_qualified_name (key_of b.meta)) × P s)
          (fetch_backup C lo cfg req)
    unfolding fetch_backup ◌>>=◌ call
    fetch_backup-Ends = record {
      at = λ s h.
          (or_forget-Ends (C.get_backup req s.world).0 (fetches s.world)).at _
            (I.move s (C.get_backup req s.world).1 h);
    }

    reconcile_backup-Kept : Ends (λ e. P) P (λ r. P) (reconcile_backup C lo cfg req)
    unfolding reconcile_backup
    reconcile_backup-Kept = Ends-bind _ _ fetch_backup-Ends λ b. Ends-fact λ mine. Keeps-Ends _ (
        Keeps-if (is_zero b.status.finished_at) _ _ (reconcile_unfinished-Kept req b mine)
          (reconcile_finished-Kept b _))

    find_if_none-Kept :
        (o : Option (List String)) (rs : List String)
        → o ≡ some rs
        → Keeps P (find_if_none C lo cfg o)
    unfolding find_if_none
    find_if_none-Kept none rs e = cc
    find_if_none-Kept (some _) rs e = search keeps_rules

    find_when_unset-Kept : Keeps P (find_when_unset C lo cfg)
    unfolding find_when_unset
    find_when_unset-Kept = record {
      at = λ s h.
          let (rs, e) = I.known s h in (find_if_none-Kept s.current_running_backups rs e).at s h;
    }

    pub reconcile-Kept : (s : State C) → P s → P (reconcile C lo cfg req s).1
    unfolding reconcile
    reconcile-Kept s h =
        Ends_state P _
          (Ends-bind _ _ (Keeps-Ends _ find_when_unset-Kept) λ _.
            Ends-bind _ _ (Keeps-Ends _ (Keeps-when _ _ (Keeps-exit _))) λ _. reconcile_backup-Kept)
          s h
