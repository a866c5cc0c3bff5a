-- ===== src/Exec/Keeps.antt =====
-- Invariants of actions: one rule for each way to build an action.
use backsnap.Base.{Bool, true, false, if◌then◌else◌}
use backsnap.Client.{Reply, ok, err}
use backsnap.Exec.{Exec, Exit, Step, next, stop, pure, exit, or_fail, when, continue, ◌>>=◌}

-- `m` keeps `P`, whether it goes on or returns.
pub record Keeps {F S A : Type 0} (P : S → Type 0) (m : Exec F S A) : Type 0 where
  pub at : (s : S) → P s → P (m s).1

module _ {F S A : Type 0} {P : S → Type 0} where
  pub Keeps-pure : (a : A) → Keeps {F = F} P (pure a)
  unfolding pure
  Keeps-pure a = record { at = λ s h. h }

  pub Keeps-exit : (e : Exit F) → Keeps {A = A} P (exit e)
  unfolding exit
  Keeps-exit e = record { at = λ s h. h }

  pub Keeps-or_fail : (r : Reply F A) → Keeps P (or_fail r)
  unfolding or_fail
  Keeps-or_fail (ok a) = record { at = λ s h. h }
  Keeps-or_fail (err e) = record { at = λ s h. h }

  pub Keeps-if :
      (b : Bool) (m n : Exec F S A) → Keeps P m → Keeps P n → Keeps P (if b then m else n)
  Keeps-if true m n km kn = km
  Keeps-if false m n km kn = kn

module _ {F S : Type 0} {P : S → Type 0} where
  pub Keeps-when : (b : Bool) (m : Exec F S Unit) → Keeps P m → Keeps P (when b m)
  unfolding when
  Keeps-when true m k = record { at = k.at }
  Keeps-when false m k = record { at = λ s h. h }

module _ {F S A B : Type 0} {P : S → Type 0} where
  Keeps-continue :
      (r : Step F A) (f : A → Exec F S B) (s : S)
      → P s
      → ((a : A) → Keeps P (f a))
      → P (continue r f s).1
  Keeps-continue (next a) f s h k = (k a).at s h
  Keeps-continue (stop e) f s h k = h

  pub Keeps-bind :
      (m : Exec F S A) (f : A → Exec F S B)
      → Keeps P m
      → ((a : A) → Keeps P (f a))
      → Keeps P (m >>= f)
  unfolding ◌>>=◌
  Keeps-bind m f km kf = record { at = λ s h. Keeps-continue (m s).0 f (m s).1 (km.at s h) kf }

pub ruleset keeps_rules = (Keeps-pure, Keeps-exit, Keeps-or_fail, Keeps-if, Keeps-when, Keeps-bind)
