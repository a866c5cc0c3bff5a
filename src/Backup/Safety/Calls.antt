-- ===== src/Backup/Safety/Calls.antt =====
-- Rules for the calls of the reconciler, over any world that carries its history.
use backsnap.Base.{◌≡◌, refl, String, Bool, true, List, [], ◌∷◌, any, arith}
use backsnap.Base.{Bool-cases, inl, inr}
use backsnap.Client.{Client}
use backsnap.Client.Calls.{Sends}
use backsnap.Client.History.{Event, Events}
use backsnap.Exec.Trace.{Triple, Triple-silent}
use backsnap.Backup.State.{State, call, forget}
use mathlib.Core.List.{Memᴰ}

module _ (C : Client) (history : C.World → Events C) where
  unfoldable pub hist : State C → Events C
  hist s = history s.world

module _ {C : Client} {history : C.World → Events C} where
  pub call-Sends :
      {A : Type 0} (op : C.World → A × C.World) (ev : A → Event C.Failure)
      → ((w : C.World) → history (op w).1 ≡ ev (op w).0 ∷ history w)
      → Sends (hist C history) (call C op) ev
  unfolding call hist
  call-Sends op ev law s = ((op s.world).0, refl, law s.world)

module _ {C : Client} {history : C.World → Events C} {J : Event C.Failure → Events C → Type 0}
    {Pre : Events C → Type 0} where
  -- A call that is no request.
  pub Triple-quiet_call :
      {A : Type 0} (op : C.World → A × C.World)
      → ((w : C.World) → history (op w).1 ≡ history w)
      → Triple J (hist C history) Pre (call C op) (λ _. Pre)
  unfolding call hist
  Triple-quiet_call op law = Triple-silent (call C op) (λ s. law s.world) (λ s h. h)

module _ {C : Client} (history : C.World → Events C) {J : Event C.Failure → Events C → Type 0}
    {Pre : Events C → Type 0} where
  pub Triple-forget : (name : String) → Triple J (hist C history) Pre (forget C name) (λ _. Pre)
  unfolding forget hist
  Triple-forget name = Triple-silent (forget C name) (λ s. ground arith) (λ s h. ground arith)

-- A test that some item passes.
pub any_sound :
    {A : Type 0} (p : A → Bool) (xs : List A) → any p xs ≡ true → (x : A) × Memᴰ x xs × (p x ≡ true)
any_sound p [] h = cc
any_sound p (x ∷ xs) h = elim (Bool-cases (p x)) [
  | inl here ↦ (x, Memᴰ.head refl, here)
  | inr other ↦ let (y, m, q) = any_sound p xs (ground arith) in (y, Memᴰ.tail m, q)
]
