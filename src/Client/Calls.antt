-- ===== src/Client/Calls.antt =====
-- Rules for the calls of the client, over any state that carries a history of requests.
use backsnap.Base.{◌≡◌, refl, String, true, Option, none, some, List, ◌∷◌, inl}
use backsnap.Client.{Client, Reply, ok, err}
use backsnap.Client.Actions.{call, or_absent, or_create, or_panic, or_wrap, or_gone}
use backsnap.Client.History.{Event, Events}
use backsnap.Exec.{Exec, next, pure, exit, failed, api, panicked}
use backsnap.Exec.Trace.{
  Occurs, Triple, Triple-pure, Triple-exit, Triple-if, Triple-event, Triple-silent,
}

-- What is known stays known.
abbrev pub IsStable : {E : Type 0} → (List E → Type 0) → Type 0
IsStable {E} P = (e : E) (es : List E) → P es → P (e ∷ es)

-- `m` goes on with some value, and adds its event.
abbrev pub Sends : {F S E A : Type 0} → (S → List E) → Exec F S A → (A → E) → Type 0
Sends {S} {A} hist m ev = (s : S) → (a : A) × ((m s).0 ≡ next a) × (hist (m s).1 ≡ ev a ∷ hist s)

module _ {F S E A : Type 0} {J : E → List E → Type 0} {hist : S → List E}
    {Pre : List E → Type 0} where
  -- An allowed request, after which its event is known and what was known before.
  pub Triple-request :
      (m : Exec F S A) (ev : A → E)
      → Sends hist m ev
      → IsStable Pre
      → ((a : A) (es : List E) → Pre es → J (ev a) es)
      → Triple J hist Pre m (λ a es. Occurs (λ e. e ≡ ev a) es × Pre es)
  Triple-request m ev sends stable allowed =
      Triple-event m ev sends (λ a es h. (allowed a es h, (inl refl, stable _ es h)))

  -- The same where the reply does not matter.
  pub Triple-send :
      (m : Exec F S A) (ev : A → E)
      → Sends hist m ev
      → IsStable Pre
      → ((a : A) (es : List E) → Pre es → J (ev a) es)
      → Triple J hist Pre m (λ _. Pre)
  Triple-send m ev sends stable allowed =
      Triple-event m ev sends (λ a es h. (allowed a es h, stable _ es h))

module _ (C : Client) {S : Type 0} {hist : S → Events C} {J : Event C.Failure → Events C → Type 0}
    {Pre : Events C → Type 0} where
  pub Triple-or_absent : (r : Reply C.Failure Unit) → Triple J hist Pre (or_absent C r) (λ _. Pre)
  unfolding or_absent
  Triple-or_absent (ok _) = Triple-pure tt (λ es h. h)
  Triple-or_absent (err e) =
      Triple-if (C.is_not_found e) (pure tt) (exit (failed (api e)))
        (λ _. Triple-pure tt (λ es h. h)) (λ _. Triple-exit _)

  pub Triple-or_create :
      {A : Type 0} {Post : A → Events C → Type 0} (r : Reply C.Failure A)
      (create : Exec C.Failure S A)
      → ((a : A) (es : Events C) → r ≡ ok a → Pre es → Post a es)
      → ((f : C.Failure) → r ≡ err f → C.is_not_found f ≡ true → Triple J hist Pre create Post)
      → Triple J hist Pre (or_create C r create) Post
  unfolding or_create
  Triple-or_create (ok a) create k t = Triple-pure a (λ es h. k a es refl h)
  Triple-or_create (err e) create k t =
      Triple-if (C.is_not_found e) create (exit (failed (api e))) (t e refl) (λ _. Triple-exit _)

  pub Triple-or_panic :
      {A : Type 0} {Post : A → Events C → Type 0} (o : Option A)
      → ((a : A) (es : Events C) → o ≡ some a → Pre es → Post a es)
      → Triple J hist Pre (or_panic C o) Post
  unfolding or_panic
  Triple-or_panic none k = Triple-exit panicked
  Triple-or_panic (some a) k = Triple-pure a (λ es h. k a es refl h)

  pub Triple-or_gone :
      {A : Type 0} {Post : A → Events C → Type 0} (r : Reply C.Failure A)
      → ((a : A) (es : Events C) → r ≡ ok a → Pre es → Post a es)
      → Triple J hist Pre (or_gone C r) Post
  unfolding or_gone
  Triple-or_gone (ok a) k = Triple-pure a (λ es h. k a es refl h)
  Triple-or_gone (err e) k =
      Triple-if (C.is_not_found e) (exit _) (exit _) (λ _. Triple-exit _) (λ _. Triple-exit _)

  pub Triple-or_wrap :
      (message : String) (r : Reply C.Failure Unit)
      → Triple J hist Pre (or_wrap C message r) (λ _. Pre)
  unfolding or_wrap
  Triple-or_wrap message (ok _) = Triple-pure tt (λ es h. h)
  Triple-or_wrap message (err e) = Triple-exit _

module _ (C : Client) {history : C.World → Events C} where
  -- The calls on the bare world.
  pub call-Sends :
      {A : Type 0} (op : C.World → A × C.World) (ev : A → Event C.Failure)
      → ((w : C.World) → history (op w).1 ≡ ev (op w).0 ∷ history w)
      → Sends history (call C op) ev
  unfolding call
  call-Sends op ev law w = ((op w).0, refl, law w)

  pub Triple-quiet_call :
      {J : Event C.Failure → Events C → Type 0} {Pre : Events C → Type 0} {A : Type 0}
      (op : C.World → A × C.World)
      → ((w : C.World) → history (op w).1 ≡ history w)
      → Triple J history Pre (call C op) (λ _. Pre)
  unfolding call
  Triple-quiet_call op law = Triple-silent (call C op) law (λ w h. h)
