-- ===== src/Client/Machine.antt =====
-- Rules that run a reconciler on an API that works: the objects are known at each point.
pub mod Gets
pub mod Creates
pub mod Changes
use backsnap.Base.{refl, ◌≡◌, ◌≢◌, sym, subst, ◌∙◌, Option, none, some}
use backsnap.Kube.{key_of, NamespacedName, Pvc, VolumeSnapshot, Job}
use backsnap.Api.{PvcBackup, PvcRestore}
use backsnap.Client.{Client, Reply, ok}
use backsnap.Client.Actions.{call}
use backsnap.Client.Server.{Objects, IsServer, Answers, found, deleted, put}
use backsnap.Exec.{Exec, Exit, next, ◌>>=◌}
use backsnap.Exec.Ends.{Ends, Post}

-- The states of a reconciler: each has a world, and a call changes just that.
pub record Machine (C : Client) : Type 1 where
  pub State : Type 0
  pub world : State → C.World
  pub move : State → C.World → State
  pub run : (A : Type 0) → (C.World → A × C.World) → Exec C.Failure State A
  pub run-eq :
      (A : Type 0) (op : C.World → A × C.World) (s : State)
      → run A op s ≡ (next (op (world s)).0, move s (op (world s)).1)
  -- What else is known of a state, which no call changes.
  pub Fixed : State → Type 0
  pub world-move : (s : State) (w : C.World) → world (move s w) ≡ w
  pub Fixed-move : (s : State) (w : C.World) → Fixed s → Fixed (move s w)

pub call-eq :
    (C : Client) (A : Type 0) (op : C.World → A × C.World) (w : C.World)
    → call C op w ≡ (next (op w).0, (op w).1)
unfolding call
call-eq C A op w = refl

-- The state of a reconciler that keeps nothing between two reconciles is the world.
abbrev pub world_machine : (C : Client) → Machine C
world_machine C = record {
  State = C.World;
  world = λ w. w;
  move = λ s w. w;
  run = λ A op. call C op;
  run-eq = call-eq C;
  Fixed = λ w. Unit;
  world-move = λ s w. refl;
  Fixed-move = λ s w h. h;
}

module _ (C : Client) (objects : C.World → Objects) (M : Machine C) where
  abbrev pub At : Objects → M.State → Type 0
  At o s = (objects (M.world s) ≡ o) × M.Fixed s

module _ (C : Client) (objects : C.World → Objects) (M : Machine C) {B : Type 0}
    {E : Exit C.Failure → M.State → Type 0} {Q : B → M.State → Type 0} {o : Objects} where
  -- A call whose answer depends on the world.
  pub At-step :
      {A : Type 0} (op : C.World → A × C.World) (f : A → Exec C.Failure M.State B)
      → ((w : C.World)
          → objects w ≡ o
          → (r : A) × (o' : Objects) × Answers objects op w r o'
            × Ends E (At C objects M o') Q (f r))
      → Ends E (At C objects M o) Q (M.run A op >>= f)
  unfolding ◌>>=◌
  At-step {A} op f step = record {
    at = λ s h.
        let (r, o', answer, k) = step (M.world s) h.0 in
        let s' = M.move s (op (M.world s)).1 in
        rw (M.run-eq A op s) (
          subst (λ x. Post Q E (f x s')) (sym answer.0)
            (k.at s' (rw M.world-move answer.1, M.Fixed-move s _ h.1)));
  }

  pub At-call :
      {A : Type 0} (op : C.World → A × C.World) (r : A) (o' : Objects)
      (f : A → Exec C.Failure M.State B)
      → ((w : C.World) → objects w ≡ o → Answers objects op w r o')
      → Ends E (At C objects M o') Q (f r)
      → Ends E (At C objects M o) Q (M.run A op >>= f)
  At-call op r o' f answers k = At-step op f λ w e. (r, o', answers w e, k)

  -- A call that leaves the objects alone, and may reply anything.
  pub At-any :
      {A : Type 0} (op : C.World → A × C.World) (f : A → Exec C.Failure M.State B)
      → ((w : C.World) → objects (op w).1 ≡ objects w)
      → ((a : A) → Ends E (At C objects M o) Q (f a))
      → Ends E (At C objects M o) Q (M.run A op >>= f)
  unfolding ◌>>=◌
  At-any {A} op f same k = record {
    at = λ s h.
        let s' = M.move s (op (M.world s)).1 in
        rw (M.run-eq A op s) (
          (k (op (M.world s)).0).at s'
            (rw M.world-move (same (M.world s) ∙ h.0), M.Fixed-move s _ h.1));
  }
