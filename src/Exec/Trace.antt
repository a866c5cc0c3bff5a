-- ===== src/Exec/Trace.antt =====
-- What actions add to a history of events, and why they may. A rule `J e es` says that event `e`
-- is allowed after the events `es`, the latest first.
use backsnap.Base.{◌≡◌, refl, Bool, true, false, ◌⊎◌, inl, inr, List, [], ◌∷◌, if◌then◌else◌}
use backsnap.Client.{Reply, ok, err}
use backsnap.Exec.{Exec, Exit, Step, next, stop, pure, exit, or_fail, when, continue, ◌>>=◌}

-- `fs` is `es` with allowed events added.
pub data Extends {E : Type 0} (J : E → List E → Type 0) (es : List E) : List E → Type 0 where
  here : Extends J es es
  more : {e : E} {fs : List E} → Extends J es fs → J e fs → Extends J es (e ∷ fs)

-- Some event of the list is as `P` says.
abbrev pub Occurs : {E : Type 0} → (E → Type 0) → List E → Type 0
Occurs P [] = ⊥
Occurs P (e ∷ es) = P e ⊎ Occurs P es

pub Occurs-map :
    {E : Type 0} {P Q : E → Type 0} (es : List E)
    → ((e : E) → P e → Q e)
    → Occurs P es
    → Occurs Q es
Occurs-map [] f o = o
Occurs-map (e ∷ es) f (inl p) = inl (f e p)
Occurs-map (e ∷ es) f (inr o) = inr (Occurs-map es f o)

module _ {E : Type 0} {J : E → List E → Type 0} where
  pub Extends-trans : {es fs gs : List E} → Extends J es fs → Extends J fs gs → Extends J es gs
  Extends-trans p here = p
  Extends-trans p (more q j) = more (Extends-trans p q) j

  -- What has occurred stays so.
  pub Occurs-Extends :
      (P : E → Type 0) {es fs : List E} → Extends J es fs → Occurs P es → Occurs P fs
  Occurs-Extends P here o = o
  Occurs-Extends P (more q j) o = inr (Occurs-Extends P q o)

abbrev pub Returns : {F E A : Type 0} → (A → List E → Type 0) → Step F A → List E → Type 0
Returns Post (next a) es = Post a es
Returns Post (stop e) es = Unit

module _ {F S E : Type 0} (J : E → List E → Type 0) (hist : S → List E) where
  -- From a history with `Pre`, `m` adds allowed events only, and where it goes on, `Post` holds.
  pub record Triple {A : Type 0} (Pre : List E → Type 0) (m : Exec F S A)
      (Post : A → List E → Type 0) : Type 0 where
    pub at :
        (s : S)
        → Pre (hist s)
        → Extends J (hist s) (hist (m s).1) × Returns Post (m s).0 (hist (m s).1)

module _ {F S E A : Type 0} {J : E → List E → Type 0} {hist : S → List E}
    {Pre : List E → Type 0} where
  pub Triple-pure :
      {Post : A → List E → Type 0} (a : A)
      → ((es : List E) → Pre es → Post a es)
      → Triple {F = F} J hist Pre (pure a) Post
  unfolding pure
  Triple-pure a k = record { at = λ s h. (here, k (hist s) h) }

  pub Triple-exit : {Post : A → List E → Type 0} (e : Exit F) → Triple J hist Pre (exit e) Post
  unfolding exit
  Triple-exit e = record { at = λ s h. (here, tt) }

  pub Triple-or_fail :
      {Post : A → List E → Type 0} (r : Reply F A)
      → ((a : A) (es : List E) → r ≡ ok a → Pre es → Post a es)
      → Triple J hist Pre (or_fail r) Post
  unfolding or_fail
  Triple-or_fail (ok a) k = record { at = λ s h. (here, k a (hist s) refl h) }
  Triple-or_fail (err e) k = record { at = λ s h. (here, tt) }

  pub Triple-if :
      {Post : A → List E → Type 0} (b : Bool) (m n : Exec F S A)
      → (b ≡ true → Triple J hist Pre m Post)
      → (b ≡ false → Triple J hist Pre n Post)
      → Triple J hist Pre (if b then m else n) Post
  Triple-if true m n km kn = km refl
  Triple-if false m n km kn = kn refl

  -- An action that leaves the history alone.
  pub Triple-silent :
      {Post : A → List E → Type 0} (m : Exec F S A)
      → ((s : S) → hist (m s).1 ≡ hist s)
      → ((s : S) → Pre (hist s) → Returns Post (m s).0 (hist s))
      → Triple J hist Pre m Post
  Triple-silent {Post} m quiet k = record { at = λ s h. (rw (quiet s) here, rw (quiet s) (k s h)) }

  pub Triple-weaken :
      {Post : A → List E → Type 0} {Pre' : List E → Type 0} {m : Exec F S A}
      → Triple J hist Pre' m Post
      → ((es : List E) → Pre es → Pre' es)
      → Triple J hist Pre m Post
  Triple-weaken t k = record { at = λ s h. t.at s (k (hist s) h) }

  -- An action that adds one event, which the reply determines.
  pub Triple-event :
      {Post : A → List E → Type 0} (m : Exec F S A) (ev : A → E)
      → ((s : S) → (a : A) × ((m s).0 ≡ next a) × (hist (m s).1 ≡ ev a ∷ hist s))
      → ((a : A) (es : List E) → Pre es → J (ev a) es × Post a (ev a ∷ es))
      → Triple J hist Pre m Post
  Triple-event {Post} m ev shape k = record {
    at = λ s h.
        let (a, e, q) = shape s in let (j, p) = k a (hist s) h in (rw q (more here j), rw (e, q) p);
  }

module _ {F S E : Type 0} {J : E → List E → Type 0} {hist : S → List E}
    {Pre : List E → Type 0} where
  pub Triple-when :
      {Post : Unit → List E → Type 0} (b : Bool) (m : Exec F S Unit)
      → (b ≡ true → Triple J hist Pre m Post)
      → (b ≡ false → (es : List E) → Pre es → Post tt es)
      → Triple J hist Pre (when b m) Post
  unfolding when
  Triple-when true m km k = record { at = (km refl).at }
  Triple-when false m km k = record { at = λ s h. (here, k refl (hist s) h) }

module _ {F S E A B : Type 0} {J : E → List E → Type 0} {hist : S → List E}
    {Mid : A → List E → Type 0} {Post : B → List E → Type 0} where
  Triple-continue :
      (r : Step F A) (f : A → Exec F S B) (s : S) (es : List E)
      → Extends J es (hist s) × Returns Mid r (hist s)
      → ((a : A) → Triple J hist (Mid a) (f a) Post)
      → Extends J es (hist (continue r f s).1)
        × Returns Post (continue r f s).0 (hist (continue r f s).1)
  Triple-continue (next a) f s es (x, p) k = let (y, q) = (k a).at s p in (Extends-trans x y, q)
  Triple-continue (stop e) f s es (x, p) k = (x, tt)

module _ {F S E A B : Type 0} {J : E → List E → Type 0} {hist : S → List E} {Pre : List E → Type 0}
    {Mid : A → List E → Type 0} {Post : B → List E → Type 0} where
  pub Triple-bind :
      (m : Exec F S A) (f : A → Exec F S B)
      → Triple J hist Pre m Mid
      → ((a : A) → Triple J hist (Mid a) (f a) Post)
      → Triple J hist Pre (m >>= f) Post
  unfolding ◌>>=◌
  Triple-bind m f km kf = record {
    at = λ s h. Triple-continue (m s).0 f (m s).1 (hist s) (km.at s h) kf;
  }
