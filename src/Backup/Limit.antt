-- ===== src/Backup/Limit.antt =====
-- The number of running backups, against the configured maximum.
use backsnap.Base.{ℕ, ◌≡◌, refl, ◌⊎◌, inl, inr, ◌≤◌, ◌<◌, String, true, List, some}
use backsnap.Base.{arith, elem, add, remove, length, IsNodup, add-IsNodup}
use backsnap.Base.{remove-IsNodup, length-remove}
use backsnap.Base.Int.{pos}
use backsnap.Go.Lo.{Lo}
use backsnap.Kube.{NamespacedName}
use backsnap.Client.{Client}
use backsnap.Backup.Kept.{IsKept, reconcile-Kept}
use backsnap.Exec.Keeps.{Keeps}
use backsnap.Backup.State.{Config, State, forget, occupy}
use backsnap.Backup.Steps.{admit}
use backsnap.Backup.Reconcile.{reconcile}

-- The set of running backups is known, has no duplicates and at most `n` members.
pub record Within (C : Client) (n : ℕ) (s : State C) : Type 0 where
  pub running : List String
  pub known : s.current_running_backups ≡ some running
  pub nodup : IsNodup running
  pub bound : length running ≤ n

module _ (C : Client) (lo : Lo) (cfg : Config) (n m : ℕ) (cap : cfg.max_running_backups ≡ pos m)
    (positive : 0 < m) (fits : m ≤ n) where
  forget-Within : (name : String) → Keeps (Within C n) (forget C name)
  unfolding forget
  forget-Within name = record {
    at = λ s h.
        rw (h.known, forget)
          (record {
            running = remove name h.running;
            known = refl;
            nodup = remove-IsNodup name h.running h.nodup;
            bound = omega (arith, length-remove name h.running);
          });
  }

  occupy-Within :
      (name : String) (s : State C) (h : Within C n s)
      → length (add name h.running) ≤ n
      → Within C n (occupy C name s).1
  unfolding occupy
  occupy-Within name s h room =
      rw (h.known, occupy)
        (record {
          running = add name h.running;
          known = refl;
          nodup = add-IsNodup name h.running h.nodup;
          bound = room;
        })

  -- A place is taken only by a backup that has one, or while fewer than `m` are taken.
  admit_cases :
      (name : String) (s : State C) (h : Within C n s)
      → ((admit C cfg name s).1 ≡ s)
        ⊎ (((admit C cfg name s).1 ≡ (occupy C name s).1)
            × ((elem name h.running ≡ true) ⊎ (length h.running < m)))
  unfolding admit
  admit_cases name s h = ground (arith, h.known)

  length-add :
      (name : String) (rs : List String)
      → length rs ≤ n
      → (elem name rs ≡ true) ⊎ (length rs < m)
      → length (add name rs) ≤ n
  unfolding add
  length-add name rs h c = ground arith

  admit-Within : (name : String) → Keeps (Within C n) (admit C cfg name)
  admit-Within name = record {
    at = λ s h. elim (admit_cases name s h) [
      | inl same ↦ rw same h
      | inr (taken, room) ↦
          rw taken (occupy-Within name s h (length-add name h.running h.bound room))
    ];
  }

  Within-IsKept : IsKept C cfg (λ name. Unit) (Within C n)
  Within-IsKept = record {
    move =
        λ s w h. record { running = h.running; known = h.known; nodup = h.nodup; bound = h.bound };
    forgotten = λ name own. forget-Within name;
    admitted = λ name own. admit-Within name;
    known = λ s h. (h.running, h.known);
  }

  -- With a maximum of `m > 0` running backups and `n ≥ m`: while at most `n` backups are recorded
  -- as running, each once, any reconcile, whatever the API replies and however it ends, leaves at
  -- most `n` recorded, each once. So a set within the maximum stays within it, and one above it,
  -- as a restart may find it, never grows.
  pub reconcile-Within :
      (req : NamespacedName) (s : State C) → Within C n s → Within C n (reconcile C lo cfg req s).1
  reconcile-Within req s h =
      reconcile-Kept C lo cfg (λ name. Unit) (Within C n) Within-IsKept req tt (λ w b e. tt) s h
