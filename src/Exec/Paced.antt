-- ===== src/Exec/Paced.antt =====
-- How soon a reconcile asks to be called again.
use backsnap.Base.{◌≡◌, refl, ◌⊎◌, inl, inr, Bool, true, false, if◌then◌else◌, arith}
use backsnap.Base.Int.{pos, ◌≤ℤ◌}
use backsnap.Go.Time.{Duration, second}
use backsnap.Kube.{Result}
use backsnap.Client.{Reply, ok, err}
use backsnap.Settings.{requeue_after}
use backsnap.Exec.{
  Exec, Exit, Step, Error, next, stop, done, failed, panicked, pure, exit, or_fail, when,
}
use backsnap.Exec.{continue, exit_of, empty_result, ◌>>=◌}

-- Not at all, or after at least a second.
abbrev pub IsSlow : Result → Type 0
IsSlow r = (r.requeue_after ≡ pos 0) ⊎ (second ≤ℤ r.requeue_after)

-- What a `return` without an error asks for is slow.
abbrev pub IsPaced : {F : Type 0} → Exit F → Type 0
IsPaced (done r) = IsSlow r
IsPaced _ = Unit

pub requeue_after-IsSlow : (d : Duration) → IsSlow (requeue_after d)
unfolding requeue_after
requeue_after-IsSlow d = inr (ground arith)

abbrev pub Paced : {F A : Type 0} → (A → Type 0) → Step F A → Type 0
Paced Fact (next a) = Fact a
Paced Fact (stop e) = IsPaced e

-- Each `return` of the action is paced, and its value is as `Fact` says.
pub record Paces {F S A : Type 0} (Fact : A → Type 0) (m : Exec F S A) : Type 0 where
  pub at : (s : S) → Paced Fact (m s).0

-- Of an action whose value is no result yet, each `return` is paced.
abbrev pub Stops : {F S A : Type 0} → Exec F S A → Type 0
Stops m = Paces (λ _. Unit) m

module _ {F S A : Type 0} {Fact : A → Type 0} where
  pub Paces-failed : (e : Error F) → Paces {S = S} Fact (exit (failed e))
  unfolding exit
  Paces-failed e = record { at = λ s. tt }

  pub Paces-panicked : Paces {F = F} {S = S} Fact (exit panicked)
  unfolding exit
  Paces-panicked = record { at = λ s. tt }

  pub Paces-empty : Paces {F = F} {S = S} Fact (exit (done empty_result))
  unfolding exit
  Paces-empty = record { at = λ s. inl refl }

  pub Paces-if :
      (b : Bool) (m n : Exec F S A) → Paces Fact m → Paces Fact n → Paces Fact (if b then m else n)
  Paces-if true m n km kn = km
  Paces-if false m n km kn = kn

module _ {F S : Type 0} where
  pub Stops-pure : {A : Type 0} (a : A) → Stops {F = F} {S = S} (pure a)
  unfolding pure
  Stops-pure a = record { at = λ s. tt }

  pub Stops-or_fail : {A : Type 0} (r : Reply F A) → Stops {S = S} (or_fail r)
  unfolding or_fail
  Stops-or_fail (ok a) = record { at = λ s. tt }
  Stops-or_fail (err e) = record { at = λ s. tt }

  pub Stops-when : (b : Bool) (m : Exec F S Unit) → Stops m → Stops (when b m)
  unfolding when
  Stops-when true m k = record { at = k.at }
  Stops-when false m k = record { at = λ s. tt }

  pub Paces-empty_pure : Paces {F = F} {S = S} IsSlow (pure empty_result)
  unfolding pure
  Paces-empty_pure = record { at = λ s. inl refl }

  pub Paces-requeue : (d : Duration) → Paces {F = F} {S = S} IsSlow (pure (requeue_after d))
  unfolding pure
  Paces-requeue d = record { at = λ s. requeue_after-IsSlow d }

module _ {F S A B : Type 0} {Fact : B → Type 0} where
  Paced-continue :
      (r : Step F A) (s : S) (f : A → Exec F S B)
      → Paced (λ _. Unit) r
      → ((a : A) → Paces Fact (f a))
      → Paced Fact (continue r f s).0
  Paced-continue (next a) s f h k = (k a).at s
  Paced-continue (stop e) s f h k = h

  pub Paces-bind :
      (m : Exec F S A) (f : A → Exec F S B)
      → Stops m
      → ((a : A) → Paces Fact (f a))
      → Paces Fact (m >>= f)
  unfolding ◌>>=◌
  Paces-bind m f km kf = record { at = λ s. Paced-continue (m s).0 (m s).1 f (km.at s) kf }

pub Paced-exit_of : {F : Type 0} (r : Step F Result) → Paced IsSlow r → IsPaced (exit_of r)
Paced-exit_of (next r) h = h
Paced-exit_of (stop e) h = h

-- The result of a reconcile that returned no error.
pub done-IsSlow : {F : Type 0} (e : Exit F) (r : Result) → IsPaced e → e ≡ done r → IsSlow r
done-IsSlow e r h q = rw q at h

pub ruleset paced_rules = (
  Paces-failed, Paces-panicked, Paces-empty, Paces-if, Stops-pure, Stops-or_fail, Stops-when,
  Paces-empty_pure, Paces-requeue, Paces-bind,
)
