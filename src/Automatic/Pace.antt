-- ===== src/Automatic/Pace.antt =====
-- How soon the creator of backups asks to be called again.
use backsnap.Base.{◌≡◌, String}
use backsnap.Exec.{done}
use backsnap.Go.Time.{Time}
use backsnap.Go.Lo.{Lo}
use backsnap.Kube.{NamespacedName, Pvc, Result}
use backsnap.Client.{Client, Reply, ok, err}
use backsnap.Client.Pace.{or_gone-Stops, call-Stops}
use backsnap.Exec.Paced.{
  IsPaced, IsSlow, Paces, Stops, Paced-exit_of, done-IsSlow, paced_rules, Paces-bind, Stops-when,
  Paces-empty,
}
use backsnap.Automatic.Schedule.{Cron, Float}
use backsnap.Automatic.Requests.{AutomaticConfig}
use backsnap.Automatic.Reconcile.{
  wait_until, create_backup, reconcile_schedule, or_bad_schedule, reconcile,
}

module _ (C : Client) (lo : Lo) (cron : Cron) (fl : Float) (cfg : AutomaticConfig) where
  wait_until-Paces : (t : Time) → Paces IsSlow (wait_until C lo cron fl cfg t)
  unfolding wait_until
  wait_until-Paces t = search (paced_rules, call-Stops) depth 20

  create_backup-Paces :
      (e : cron.Expression) (pvc : Pvc) (now : Time)
      → Paces IsSlow (create_backup C lo cron fl cfg e pvc now)
  unfolding create_backup
  create_backup-Paces e pvc now = search (paced_rules, call-Stops, wait_until-Paces) depth 20

  reconcile_schedule-Paces :
      (pvc : Pvc) (e : cron.Expression) → Paces IsSlow (reconcile_schedule C lo cron fl cfg pvc e)
  unfolding reconcile_schedule
  reconcile_schedule-Paces pvc e =
      search (paced_rules, call-Stops, wait_until-Paces, create_backup-Paces) depth 20

  or_bad_schedule-Stops :
      (r : Reply String cron.Expression) → Stops (or_bad_schedule C lo cron fl cfg r)
  unfolding or_bad_schedule
  or_bad_schedule-Stops (ok e) = search paced_rules
  or_bad_schedule-Stops (err text) = search paced_rules

  reconcile-IsPaced :
      (req : NamespacedName) (w : C.World) → IsPaced (reconcile C lo cron fl cfg req w).0
  unfolding reconcile
  reconcile-IsPaced req w = Paced-exit_of _ (
      (Paces-bind _ _ (call-Stops C _) λ found. Paces-bind _ _ (or_gone-Stops C found) λ namespace.
          Paces-bind _ _ (call-Stops C _) λ reply. Paces-bind _ _ (or_gone-Stops C reply) λ pvc.
            Paces-bind _ _ (Stops-when _ _ Paces-empty) λ _.
              Paces-bind _ _ (Stops-when _ _ Paces-empty) λ _.
                Paces-bind _ _ (or_bad_schedule-Stops _) λ e. reconcile_schedule-Paces pvc e).at
        w)

  -- A reconcile of a PVC that returns a result and no error asks to be called again either not at
  -- all or after at least a second, also when the schedule gives a time that has passed.
  pub automatic-IsSlow :
      (req : NamespacedName) (w : C.World) (r : Result)
      → (reconcile C lo cron fl cfg req w).0 ≡ done r
      → IsSlow r
  automatic-IsSlow req w r e = done-IsSlow _ r (reconcile-IsPaced req w) e
