-- ===== src/Exec/Ends.antt =====
-- How actions end: with a value and a state, or by a `return` that is as it should be.
use backsnap.Base.{Bool, true, false, if◌then◌else◌, ◌≡◌, refl}
use backsnap.Client.{Reply, ok, err}
use backsnap.Exec.{
  Exec, Exit, Step, next, stop, failed, panicked, api, pure, exit, or_fail, when, continue, ◌>>=◌,
}

-- No nil pointer was dereferenced, and no nil map written to.
abbrev pub NoPanic : {F : Type 0} → Exit F → Type 0
NoPanic panicked = ⊥
NoPanic _ = Unit

abbrev pub Calm : {F S : Type 0} → Exit F → S → Type 0
Calm e s = NoPanic e

-- Where an action may be: at a value and a state with `Q`, or at a `return` with `E`.
abbrev pub Post :
    {F S A : Type 0} → (A → S → Type 0) → (Exit F → S → Type 0) → Step F A × S → Type 0
Post Q E (next a, s) = Q a s
Post Q E (stop e, s) = E e s

-- From a state with `P`, the action ends at `Q` or by a `return` with `E`.
pub record Ends {F S A : Type 0} (E : Exit F → S → Type 0) (P : S → Type 0) (Q : A → S → Type 0)
    (m : Exec F S A) : Type 0 where
  pub at : (s : S) → P s → Post Q E (m s)

module _ {F S A : Type 0} {E : Exit F → S → Type 0} {P : S → Type 0} {Q : A → S → Type 0} where
  pub Ends-pure : (a : A) → ((s : S) → P s → Q a s) → Ends E P Q (pure a)
  unfolding pure
  Ends-pure a h = record { at = h }

  pub Ends-exit : (e : Exit F) → ((s : S) → P s → E e s) → Ends E P Q (exit e)
  unfolding exit
  Ends-exit e h = record { at = h }

  pub Ends-or_fail :
      (r : Reply F A)
      → ((a : A) → r ≡ ok a → (s : S) → P s → Q a s)
      → ((e : F) (s : S) → P s → E (failed (api e)) s)
      → Ends E P Q (or_fail r)
  unfolding or_fail
  Ends-or_fail (ok a) h f = record { at = h a refl }
  Ends-or_fail (err e) h f = record { at = f e }

  pub Ends-if :
      (b : Bool) (m n : Exec F S A)
      → (b ≡ true → Ends E P Q m)
      → (b ≡ false → Ends E P Q n)
      → Ends E P Q (if b then m else n)
  Ends-if true m n km kn = km refl
  Ends-if false m n km kn = kn refl

  pub Ends-weaken :
      {P' : S → Type 0} {m : Exec F S A} → Ends E P Q m → ((s : S) → P' s → P s) → Ends E P' Q m
  Ends-weaken k h = record { at = λ s p. k.at s (h s p) }

  -- A fact that does not depend on the state.
  pub Ends-fact : {X : Type 0} {m : Exec F S A} → (X → Ends E P Q m) → Ends E (λ s. X × P s) Q m
  Ends-fact k = record { at = λ s p. (k p.0).at s p.1 }

module _ {F S : Type 0} {E : Exit F → S → Type 0} {P : S → Type 0} {Q : Unit {0} → S → Type 0} where
  pub Ends-when :
      (b : Bool) (m : Exec F S Unit)
      → (b ≡ true → Ends E P Q m)
      → (b ≡ false → (s : S) → P s → Q tt s)
      → Ends E P Q (when b m)
  unfolding when
  Ends-when true m k h = record { at = (k refl).at }
  Ends-when false m k h = record { at = h refl }

module _ {F S A B : Type 0} {E : Exit F → S → Type 0} {Mid : A → S → Type 0}
    {Q : B → S → Type 0} where
  Ends-continue :
      (r : Step F A) (s : S) (f : A → Exec F S B)
      → Post Mid E (r, s)
      → ((a : A) → Ends E (Mid a) Q (f a))
      → Post Q E (continue r f s)
  Ends-continue (next a) s f h k = (k a).at s h
  Ends-continue (stop e) s f h k = h

  pub Ends-bind :
      {P : S → Type 0} (m : Exec F S A) (f : A → Exec F S B)
      → Ends E P Mid m
      → ((a : A) → Ends E (Mid a) Q (f a))
      → Ends E P Q (m >>= f)
  unfolding ◌>>=◌
  Ends-bind m f km kf = record { at = λ s p. Ends-continue (m s).0 (m s).1 f (km.at s p) kf }

module _ {F S A : Type 0} where
  Post_state : (L : S → Type 0) (r : Step F A) (s : S) → Post (λ _. L) (λ _. L) (r, s) → L s
  Post_state L (next a) s h = h
  Post_state L (stop e) s h = h

  -- However the action ends, the state has `L`.
  pub Ends_state :
      (L : S → Type 0) {P : S → Type 0} (m : Exec F S A)
      → Ends (λ _. L) P (λ _. L) m
      → (s : S) → P s
      → L (m s).1
  Ends_state L m k s p = Post_state L (m s).0 (m s).1 (k.at s p)

module _ {F S A : Type 0} where
  Post_map :
      (E : Exit F → S → Type 0) (Q Q' : A → S → Type 0) (r : Step F A) (s : S)
      → ((a : A) (s : S) → Q a s → Q' a s)
      → Post Q E (r, s)
      → Post Q' E (r, s)
  Post_map E Q Q' (next a) s f h = f a s h
  Post_map E Q Q' (stop e) s f h = h

  -- Less of the value and the state.
  pub Ends-map :
      {E : Exit F → S → Type 0} {P : S → Type 0} {Q Q' : A → S → Type 0} {m : Exec F S A}
      → Ends E P Q m
      → ((a : A) (s : S) → Q a s → Q' a s)
      → Ends E P Q' m
  Ends-map {E} {P} {Q} {Q'} {m} k f = record {
    at = λ s p. Post_map E Q Q' (m s).0 (m s).1 f (k.at s p);
  }
