-- ===== src/Client/Pace.antt =====
-- How soon the actions on the replies of the client ask for another reconcile.
use backsnap.Base.{String, Option, none, some}
use backsnap.Client.{Client, Reply, ok, err}
use backsnap.Client.Actions.{or_absent, or_create, or_gone, or_wrap, or_panic, call}
use backsnap.Exec.{Exec}
use backsnap.Exec.Paced.{Stops, paced_rules, Paces-if, Paces-failed, Paces-empty}

module _ (C : Client) where
  pub or_absent-Stops : {S : Type 0} (r : Reply C.Failure Unit) → Stops {S = S} (or_absent C r)
  unfolding or_absent
  or_absent-Stops (ok _) = search paced_rules
  or_absent-Stops (err _) = search paced_rules

  pub or_wrap-Stops :
      {S : Type 0} (message : String) (r : Reply C.Failure Unit)
      → Stops {S = S} (or_wrap C message r)
  unfolding or_wrap
  or_wrap-Stops message (ok _) = search paced_rules
  or_wrap-Stops message (err _) = search paced_rules

  pub or_panic-Stops : {S A : Type 0} (o : Option A) → Stops {S = S} (or_panic C o)
  unfolding or_panic
  or_panic-Stops none = search paced_rules
  or_panic-Stops (some a) = search paced_rules

  pub or_create-Stops :
      {S A : Type 0} (r : Reply C.Failure A) (create : Exec C.Failure S A)
      → Stops create
      → Stops (or_create C r create)
  unfolding or_create
  or_create-Stops (ok _) create k = search paced_rules
  or_create-Stops (err e) create k = Paces-if (C.is_not_found e) _ _ k (Paces-failed _)

  pub or_gone-Stops : {S A : Type 0} (r : Reply C.Failure A) → Stops {S = S} (or_gone C r)
  unfolding or_gone
  or_gone-Stops (ok _) = search paced_rules
  or_gone-Stops (err e) = Paces-if (C.is_not_found e) _ _ Paces-empty (Paces-failed _)

  pub call-Stops : {A : Type 0} (op : C.World → A × C.World) → Stops (call C op)
  unfolding call
  call-Stops op = record { at = λ s. tt }

  pub ruleset client_rules = (
    paced_rules, call-Stops, or_absent-Stops, or_wrap-Stops, or_panic-Stops, or_create-Stops,
    or_gone-Stops,
  )
