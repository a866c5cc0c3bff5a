-- ===== src/Backup/Others.antt =====
-- The places of the other backups, in a reconcile of one.
use backsnap.Base.{
  ◌≡◌, ◌≢◌, refl, sym, ap, ◌∙◌, inl, inr, String, Bool, List, some, elem, add, remove, elem-add,
  elem-remove, eq_iff, arith,
}
use backsnap.Go.Lo.{Lo}
use backsnap.Kube.{NamespacedName}
use backsnap.Api.{PvcBackup}
use backsnap.Client.{Client, ok}
use backsnap.Exec.Keeps.{Keeps}
use backsnap.Backup.State.{Config, State, forget, occupy, key_of, backup_qualified_name}
use backsnap.Backup.Steps.{admit, admit_cases}
use backsnap.Backup.Reconcile.{reconcile}
use backsnap.Backup.Kept.{IsKept, reconcile-Kept}

module _ (C : Client) (cfg : Config) (j : String) (v : Bool) where
  -- The running backups are known, and `j` is one of them as `v` says.
  abbrev Placed : State C → Type 0
  Placed s = (rs : List String) × (s.current_running_backups ≡ some rs) × (elem j rs ≡ v)

  elem-add_other : (name : String) (rs : List String) → name ≢ j → elem j (add name rs) ≡ elem j rs
  elem-add_other name rs h = elem-add j name rs ∙ ground (arith, eq_iff name j)

  elem-remove_other :
      (name : String) (rs : List String) → name ≢ j → elem j (remove name rs) ≡ elem j rs
  elem-remove_other name rs h = elem-remove j name rs ∙ ground (arith, eq_iff name j)

  forget-Placed : (name : String) → name ≢ j → Keeps Placed (forget C name)
  unfolding forget
  forget-Placed name other = record {
    at = λ s h.
        let (rs, known, e) = h in
        rw (known, forget) (remove name rs, refl, elem-remove_other name rs other ∙ e);
  }

  occupy-Placed : (name : String) (s : State C) → name ≢ j → Placed s → Placed (occupy C name s).1
  unfolding occupy
  occupy-Placed name s other h =
      let (rs, known, e) = h in
      rw (known, occupy) (add name rs, refl, elem-add_other name rs other ∙ e)

  admit-Placed : (name : String) → name ≢ j → Keeps Placed (admit C cfg name)
  admit-Placed name other = record {
    at = λ s h. elim (admit_cases C cfg name s) [
      | inl waits ↦ rw waits h
      | inr taken ↦ rw taken (occupy-Placed name s other h)
    ];
  }

  Placed-IsKept : IsKept C cfg (λ name. name ≢ j) Placed
  Placed-IsKept = record {
    move = λ s w h. h;
    forgotten = forget-Placed;
    admitted = admit-Placed;
    known = λ s h. (h.0, h.1);
  }

-- A reconcile of one backup, whatever the API replies and however it ends, leaves every other backup
-- its place, and takes none for it: the running backups stay known, and another name is one of them
-- afterwards if and only if it was before. Condition: the API replies to a Get with an object of the
-- name that was asked for.
pub others_keep_places :
    (C : Client) (lo : Lo) (cfg : Config) (req : NamespacedName) (j : String) (s : State C)
    (rs : List String)
    → ((w : C.World) (b : PvcBackup) → (C.get_backup req w).0 ≡ ok b → key_of b.meta ≡ req)
    → backup_qualified_name req ≢ j
    → s.current_running_backups ≡ some rs
    → (rs' : List String) × ((reconcile C lo cfg req s).1.current_running_backups ≡ some rs')
      × (elem j rs' ≡ elem j rs)
others_keep_places C lo cfg req j s rs keyed other known =
    reconcile-Kept C lo cfg (λ name. name ≢ j) (Placed C cfg j (elem j rs))
      (Placed-IsKept C cfg j (elem j rs)) req other
      (λ w b e same. other (sym (ap backup_qualified_name (keyed w b e)) ∙ same)) s
      (rs, known, refl)
