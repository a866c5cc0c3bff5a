-- ===== src/Automatic/Never.antt =====
-- The creator of backups on a schedule that parses, but that no time matches.
use backsnap.Base.{rewrite_cons, String, List, ◌≡◌, refl, ap, ◌∙◌, true, ◌∷◌, arith}
use backsnap.Base.Int.{pos, ◌≤ℤ◌, -ℤ_parts}
use backsnap.Go.Time.{Time, second, sub, saturate, after}
use backsnap.Go.Lo.{Lo}
use backsnap.Kube.{Result, Pvc}
use backsnap.Api.{PvcBackup}
use backsnap.Client.{Client, ok}
use backsnap.Client.History.{Events, IsRecorded, created_backup, listed_child_backups}
use backsnap.Client.Actions.{call}
use backsnap.Exec.{Exit, Step, next}
use backsnap.Exec.Ends.{
  Ends, Post, Ends-pure, Ends-fact, Ends-or_fail, Ends-if, Ends-bind, Ends-map,
}
use backsnap.Settings.{requeue_after}
use backsnap.Automatic.Schedule.{Cron, Float, newest_backup, next_backup}
use backsnap.Automatic.Requests.{AutomaticConfig}
use backsnap.Automatic.Reconcile.{wait_until, create_backup, reconcile_schedule}

-- No time matches the expression, for which cronexpr gives the zero time.
abbrev pub NeverMatches : (cron : Cron) → cron.Expression → Type 0
NeverMatches cron e = (t : Time) → cron.next_after e t ≡ pos 0

past_wait : (now : Time) → pos 0 ≤ℤ now → (requeue_after (sub (pos 0) now)).requeue_after ≡ second
unfolding requeue_after sub saturate
past_wait now h = ground (arith, -ℤ_parts (pos 0) now)

next_backup-never :
    (cron : Cron) (fl : Float) (e : cron.Expression)
    → NeverMatches cron e
    → (t : Time) → next_backup cron fl e t ≡ pos 0
unfolding next_backup
next_backup-never cron fl e never t = ground (arith, never t, never (cron.next_after e t))

not_after : (t now : Time) → t ≡ pos 0 → pos 0 ≤ℤ now → after t now ≡ true → ⊥
not_after t now zero h due = ground arith

module _ (C : Client) (history : C.World → Events C) where
  -- Since the history was `h`, the backups of the PVC were listed, and one more of it created.
  abbrev pub OneMore : Pvc → Events C → C.World → Type 0
  OneMore pvc h w =
      (x : PvcBackup) × (made : PvcBackup) × (children : List PvcBackup) × (x.spec.pvc_name
        ≡ pvc.meta.name)
      × (history w
          ≡ created_backup x (ok made)
            ∷ listed_child_backups pvc.meta.namespace pvc.meta.name (ok children)
            ∷ h)

module _ (C : Client) (history : C.World → Events C) (R : IsRecorded C history)
    (clock : (w : C.World) → pos 0 ≤ℤ (C.now w).0) (lo : Lo) (cron : Cron) (fl : Float)
    (cfg : AutomaticConfig) (e : cron.Expression) (never : NeverMatches cron e) where
  abbrev Anyhow : Exit C.Failure → C.World → Type 0
  Anyhow e w = Unit

  abbrev At : Events C → C.World → Type 0
  At h w = history w ≡ h

  -- Reading the clock adds nothing to the history, and gives no time before the zero time.
  now-At : (h : Events C) → Ends Anyhow (At h) (λ now w. (pos 0 ≤ℤ now) × At h w) (call C C.now)
  unfolding call
  now-At h = record { at = λ w p. (clock w, R.now-event w ∙ p) }

  -- A reply that is no error is the latest entry.
  create-At :
      (x : PvcBackup) (h : Events C)
      → Ends Anyhow
          (At h)
          (λ r w. (made : PvcBackup) → r ≡ ok made → At (created_backup x (ok made) ∷ h) w)
          (call C (C.create_backup x))
  unfolding call
  create-At x h = record {
    at = λ w p made q. rewrite_cons (R.create_backup-event x w) (ap (created_backup x) q) p;
  }

  list-At :
      (k l : String) (h : Events C)
      → Ends Anyhow
          (At h)
          (λ r w. (bs : List PvcBackup) → r ≡ ok bs → At (listed_child_backups k l (ok bs) ∷ h) w)
          (call C (C.list_child_backups k l))
  unfolding call
  list-At k l h = record {
    at = λ w p bs q.
        rewrite_cons (R.list_child_backups-event k l w) (ap (listed_child_backups k l) q) p;
  }

  wait_until-At :
      (t : Time) (h : Events C)
      → t ≡ pos 0
      → Ends Anyhow
          (At h)
          (λ r w. (r.requeue_after ≡ second) × At h w)
          (wait_until C lo cron fl cfg t)
  unfolding wait_until
  wait_until-At t h zero =
      Ends-bind _ _ (now-At h) λ now. Ends-pure _ (λ w p. (rw zero (past_wait now p.0), p.1))

  abbrev Created : Pvc → Events C → Result → C.World → Type 0
  Created pvc h r w =
      (r.requeue_after ≡ second)
      × ((x : PvcBackup) × (made : PvcBackup) × (x.spec.pvc_name ≡ pvc.meta.name)
          × At (created_backup x (ok made) ∷ h) w)

  create_backup-At :
      (pvc : Pvc) (now : Time) (h : Events C)
      → Ends Anyhow (At h) (Created pvc h) (create_backup C lo cron fl cfg e pvc now)
  unfolding create_backup
  create_backup-At pvc now h = Ends-bind _ _ (Ends-or_fail _ (λ a q s p. p) (λ e s p. tt)) λ owners.
      Ends-bind _ _ (create-At _ h) λ reply.
        Ends-bind _ _ (Ends-or_fail reply (λ made q w p. p made q) (λ e s p. tt))
          λ made. Ends-map (wait_until-At _ _ (never _)) (λ r w p. (p.0, (_, made, refl, p.1)))

  reconcile_schedule-OneMore :
      (pvc : Pvc) (h : Events C)
      → Ends Anyhow
          (At h)
          (λ r w. (r.requeue_after ≡ second) × OneMore C history pvc h w)
          (reconcile_schedule C lo cron fl cfg pvc e)
  unfolding reconcile_schedule
  reconcile_schedule-OneMore pvc h = Ends-bind _ _ (list-At _ _ h) λ reply.
      Ends-bind _ _ (Ends-or_fail reply (λ bs q w p. p bs q) (λ e s p. tt)) λ children.
        Ends-bind _ _ (now-At _) λ now. Ends-fact λ past.
          Ends-if (after (next_backup cron fl e (newest_backup lo pvc children)) now) _ _
            (λ due. elim (not_after _ now (next_backup-never cron fl e never _) past due) [ ])
            (λ _.
              Ends-map (create_backup-At pvc now _)
                (λ r w p. (p.0, (p.1.0, p.1.1, children, p.1.2, p.1.3))))

  next-OneMore :
      (pvc : Pvc) (h : Events C) (s : Step C.Failure Result) (w : C.World) (r : Result)
      → Post (λ r w. (r.requeue_after ≡ second) × OneMore C history pvc h w) Anyhow (s, w)
      → s ≡ next r
      → (r.requeue_after ≡ second) × OneMore C history pvc h w
  next-OneMore pvc h s w r p q = rw q at p

  -- On a schedule that parses and that no time matches, for which cronexpr gives the zero time, in a
  -- world that records its requests and with a clock that is not before the zero time: whatever the API replies, and however many backups of the PVC are listed, a
  -- reconcile that reaches the schedule and returns a result has sent just two requests, the
  -- listing of the backups of the PVC and the creation of one more backup of it, and asks to be
  -- called again in one second.
  pub never_due-OneMore :
      (pvc : Pvc) (w : C.World) (r : Result)
      → (reconcile_schedule C lo cron fl cfg pvc e w).0 ≡ next r
      → (r.requeue_after ≡ second)
        × OneMore C history pvc (history w) (reconcile_schedule C lo cron fl cfg pvc e w).1
  never_due-OneMore pvc w r q =
      next-OneMore pvc (history w) _ _ r ((reconcile_schedule-OneMore pvc (history w)).at w refl) q
