-- ===== src/Exec.antt =====
-- Reconcilers as actions on a state: an action goes on with a value, or returns from the
-- reconcile at once, as the source's `return` statements do.
pub mod Keeps
pub mod Trace
pub mod Ends
pub mod Paced
use backsnap.Base.{String, Bool, true, false}
use backsnap.Client.{Reply, ok, err}
use backsnap.Kube.{Result}
use backsnap.Base.Int.{pos}

-- An error: one of the client, one with a text, or one of the client that `fmt.Errorf` wraps by %w.
pub data Error (F : Type 0) : Type 0 where
  api : F → Error F
  errorf : String → Error F
  wrapped : String → F → Error F

-- How a reconcile ends: `return result, nil`, `return ctrl.Result{}, err`, or a nil dereference.
pub data Exit (F : Type 0) : Type 0 where
  done : Result → Exit F
  failed : Error F → Exit F
  panicked : Exit F

pub data Step (F A : Type 0) : Type 0 where
  next : A → Step F A
  stop : Exit F → Step F A

-- How the reconcile ended: by a `return` on the way, or with the value of its last statement.
abbrev pub exit_of : {F : Type 0} → Step F Result → Exit F
exit_of (next r) = done r
exit_of (stop e) = e

abbrev pub Exec : Type 0 → Type 0 → Type 0 → Type 0
Exec F S A = S → Step F A × S

-- `ctrl.Result{}`
abbrev pub empty_result : Result
empty_result = record { requeue_after = pos 0 }

module _ {F S A : Type 0} where
  unfoldable pub pure : A → Exec F S A
  pure a s = (next a, s)

  unfoldable pub exit : Exit F → Exec F S A
  exit e s = (stop e, s)

  -- The value of a reply, or `return ctrl.Result{}, err`.
  unfoldable pub or_fail : Reply F A → Exec F S A
  or_fail (ok a) s = (next a, s)
  or_fail (err e) s = (stop (failed (api e)), s)

-- `if test { ... }` in front of the rest.
unfoldable pub when : {F S : Type 0} → Bool → Exec F S Unit → Exec F S Unit
when true m s = m s
when false m s = (next tt, s)

module _ {F S A B : Type 0} where
  abbrev pub continue : Step F A → (A → Exec F S B) → Exec F S B
  continue (next a) f s = f a s
  continue (stop e) f s = (stop e, s)

  infixl 5 ◌>>=◌ ◌>>◌
  -- Opening this opens the actions above.
  unfoldable pub ◌>>=◌ : Exec F S A → (A → Exec F S B) → Exec F S B
  unfolding pure exit or_fail when
  ◌>>=◌ m f s = let (r, s') = m s in continue r f s'

  abbrev pub ◌>>◌ : Exec F S A → Exec F S B → Exec F S B
  m >> k = m >>= λ _. k
