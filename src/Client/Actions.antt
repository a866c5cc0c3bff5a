-- ===== src/Client/Actions.antt =====
-- How the reconcilers take the replies of the client, over any state; and calls on the bare world,
-- the state of the reconcilers that keep nothing between two reconciles.
use backsnap.Base.{Option, none, some, String, if◌then◌else◌}
use backsnap.Client.{Client, Reply, ok, err}
use backsnap.Exec.{Exec, next, pure, exit, done, failed, panicked, api, wrapped}
use backsnap.Exec.{empty_result}

module _ (C : Client) where
  abbrev pub Action : Type 0 → Type 0
  Action A = Exec C.Failure C.World A

  -- A call of the client or the clock.
  unfoldable pub call : {A : Type 0} → (C.World → A × C.World) → Action A
  call op w = let (r, w') = op w in (next r, w')

  module _ {S : Type 0} where
    -- `if err := r.Delete(...); err != nil && !apierrors.IsNotFound(err) { return err }`
    unfoldable pub or_absent : Reply C.Failure Unit → Exec C.Failure S Unit
    or_absent (ok _) = pure tt
    or_absent (err e) = if C.is_not_found e then pure tt else exit (failed (api e))

    -- `if err := r.Get(...); err != nil { if !apierrors.IsNotFound(err) { return err }; ... }`
    unfoldable pub or_create :
        {A : Type 0} → Reply C.Failure A → Exec C.Failure S A → Exec C.Failure S A
    or_create (ok a) create = pure a
    or_create (err e) create = if C.is_not_found e then create else exit (failed (api e))

    -- The value, or a nil dereference.
    unfoldable pub or_panic : {A : Type 0} → Option A → Exec C.Failure S A
    or_panic none = exit panicked
    or_panic (some a) = pure a

    -- `if err != nil { return ctrl.Result{}, fmt.Errorf("message: %w", err) }`
    unfoldable pub or_wrap : String → Reply C.Failure Unit → Exec C.Failure S Unit
    or_wrap message (ok _) = pure tt
    or_wrap message (err e) = exit (failed (wrapped message e))

    -- `if apierrors.IsNotFound(err) { return ctrl.Result{}, nil }; return ctrl.Result{}, err`
    unfoldable pub or_gone : {A : Type 0} → Reply C.Failure A → Exec C.Failure S A
    or_gone (ok a) = pure a
    or_gone (err e) = if C.is_not_found e then exit (done empty_result) else exit (failed (api e))
