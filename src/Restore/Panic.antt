-- ===== src/Restore/Panic.antt =====
-- Nil dereferences in the reconciler of PVCRestores.
use backsnap.Base.{◌≡◌, ◌≢◌, refl, ap, ◌∙◌, String, not, Option, none, some, arith, str_eq}
use backsnap.Go.Time.{Time, is_zero}
use backsnap.Go.Lo.{Lo}
use backsnap.Kube.{NamespacedName, Pvc, Job, Result}
use backsnap.Api.{PvcRestore}
use backsnap.Client.{Client, Reply, ok, err}
use backsnap.Client.Actions.{call, or_create, or_panic, or_gone}
use backsnap.Exec.{Exec, Step, next, stop, exit_of, pure, or_fail, ◌>>=◌}
use backsnap.Exec.Ends.{
  NoPanic, Calm, Ends, Post, Ends-pure, Ends-exit, Ends-or_fail, Ends-if, Ends-when, Ends-bind,
}
use backsnap.Settings.{BackupSettings, ignores}
use backsnap.Restore.Objects.{target_of, with_defaults, set_restore_finished}
use backsnap.Restore.Steps.{
  RestoreConfig, is_marked, with_restore, end_restore, start_if_unset, ensure_target, ensure_job,
  after_unmark, unmark,
}
use backsnap.Restore.Reconcile.{restore_into, reconcile_restore, reconcile}

-- A PVCRestore is stored with the start time that it is sent with.
abbrev pub StoresStart : Client → Type 0
StoresStart C =
    (x : PvcRestore) (w : C.World) (y : PvcRestore)
    → (C.update_restore_status x w).0 ≡ ok y
    → y.status.started_at ≡ x.status.started_at

abbrev Started : PvcRestore → Type 0
Started r = r.status.started_at ≢ none

set-started : (o : Option Time) (t : Time) → o ≡ some t → o ≢ none
set-started o t e = λ unset. cc

set_restore_finished-some :
    (now : Time) (result : String) (r : PvcRestore)
    → Started r
    → set_restore_finished now result r ≢ none
unfolding set_restore_finished
set_restore_finished-some now result r started = ground arith

with_defaults-Started : (r : PvcRestore) → Started r → Started (with_defaults r)
unfolding with_defaults
with_defaults-Started r h = h

module _ (C : Client) where
  -- An action that does not panic, and whose value is as `Fact` says.
  abbrev Safe : {A : Type 0} → (A → Type 0) → Exec C.Failure C.World A → Type 0
  Safe Fact m = Ends Calm (λ _. Unit) (λ a _. Fact a) m

  Safe-call :
      {A : Type 0} (Fact : A → Type 0) (op : C.World → A × C.World)
      → ((w : C.World) → Fact (op w).0)
      → Safe Fact (call C op)
  unfolding call
  Safe-call Fact op h = record { at = λ w _. h w }

  Safe-bind :
      {A B : Type 0} {Fact : A → Type 0} {Q : B → Type 0} (m : Exec C.Failure C.World A)
      (f : A → Exec C.Failure C.World B)
      → Safe Fact m
      → ((a : A) → Fact a → Safe Q (f a))
      → Safe Q (m >>= f)
  Safe-bind m f km kf = Ends-bind m f km (λ a. record { at = λ w h. (kf a h).at w tt })

  Safe-or_fail :
      {A : Type 0} (Fact : A → Type 0) (r : Reply C.Failure A)
      → ((a : A) → r ≡ ok a → Fact a)
      → Safe Fact (or_fail r)
  Safe-or_fail Fact r h = Ends-or_fail r (λ a q w _. h a q) (λ e s p. tt)

  Safe-or_create :
      {A : Type 0} (Fact : A → Type 0) (r : Reply C.Failure A) (create : Exec C.Failure C.World A)
      → ((a : A) → r ≡ ok a → Fact a)
      → Safe Fact create
      → Safe Fact (or_create C r create)
  unfolding or_create
  Safe-or_create Fact (ok a) create h k = Ends-pure a (λ w _. h a refl)
  Safe-or_create Fact (err e) create h k =
      Ends-if (C.is_not_found e) _ _ (λ _. k) (λ _. Ends-exit _ (λ _ _. tt))

  Safe-or_gone : {A : Type 0} (r : Reply C.Failure A) → Safe (λ _. Unit) (or_gone C r)
  unfolding or_gone
  Safe-or_gone (ok a) = Ends-pure a (λ w _. tt)
  Safe-or_gone (err e) =
      Ends-if (C.is_not_found e) _ _ (λ _. Ends-exit _ (λ _ _. tt)) (λ _. Ends-exit _ (λ _ _. tt))

  Safe-or_panic : {A : Type 0} (o : Option A) → o ≢ none → Safe (λ _. Unit) (or_panic C o)
  unfolding or_panic
  Safe-or_panic none h = elim (h refl) [ ]
  Safe-or_panic (some a) h = Ends-pure a (λ w _. tt)

  -- The ends without a fact.
  abbrev Plain : {A : Type 0} → Exec C.Failure C.World A → Type 0
  Plain m = Safe (λ _. Unit) m

  Plain-call : {A : Type 0} (op : C.World → A × C.World) → Plain (call C op)
  Plain-call op = Safe-call (λ _. Unit) op (λ w. tt)

  Plain-or_fail : {A : Type 0} (r : Reply C.Failure A) → Plain (or_fail r)
  Plain-or_fail r = Safe-or_fail (λ _. Unit) r (λ a q. tt)

  Plain-pure : {A : Type 0} (a : A) → Plain (pure a)
  Plain-pure a = Ends-pure a (λ w _. tt)

  end_restore-Plain :
      (result : String) (r : PvcRestore) → Started r → Plain (end_restore C result r)
  unfolding end_restore
  end_restore-Plain result r started = Safe-bind _ _ (Plain-call _) λ now _.
      Safe-bind _ _ (Safe-or_panic _ (set_restore_finished-some now result r started)) λ r' _.
        Safe-bind _ _ (Plain-call _)
          λ updated _. Safe-bind _ _ (Plain-or_fail updated) λ _ _. Plain-pure _

  after_unmark-Plain :
      (r : PvcRestore) (reply : Reply C.Failure Pvc) → Started r → Plain (after_unmark C r reply)
  unfolding after_unmark
  after_unmark-Plain r (ok _) started = end_restore-Plain "Succeeded" r started
  after_unmark-Plain r (err _) started = end_restore-Plain "Failed" r started

  unmark-Plain : (r : PvcRestore) (pvc : Pvc) → Started r → Plain (unmark C r pvc)
  unfolding unmark
  unmark-Plain r pvc started =
      Safe-bind _ _ (Plain-call _) λ reply _. after_unmark-Plain r reply started

  start_if_unset-Started :
      StoresStart C
      → (r : PvcRestore) (o : Option Time) → r.status.started_at ≡ o
      → Safe Started (start_if_unset C r o)
  unfolding start_if_unset
  start_if_unset-Started stores r (some t) e = Ends-pure r (λ w _. set-started _ t e)
  start_if_unset-Started stores r none e = Safe-bind _ _ (Plain-call _) λ now _.
      Safe-bind _ _
        (Safe-call (λ u. (y : _) → u ≡ ok y → Started y) _
          (λ w y q. set-started _ now (stores _ w y q)))
        λ updated h. Safe-or_fail Started updated h

  ensure_target-Plain :
      (s : BackupSettings) (req : NamespacedName) (target : String) (r : PvcRestore)
      → Plain (ensure_target C s req target r)
  unfolding ensure_target
  ensure_target-Plain s req target r = Safe-bind _ _ (Plain-call _) λ reply _.
      Safe-or_create (λ _. Unit) reply _ (λ a q. tt)
        (Safe-bind _ _ (Plain-call _) λ created _. Plain-or_fail created)

  with_restore-Started :
      (r : PvcRestore) (reply : Reply C.Failure Job) (p : Job × PvcRestore)
      → Started r
      → with_restore r reply ≡ ok p
      → Started p.1
  with_restore-Started r (ok j) p h e =
      λ unset. h (ap (λ (q : PvcRestore). q.status.started_at) same ∙ unset)
    where
      same : r ≡ p.1
      same = cc
  with_restore-Started r (err f) p h e = cc

  ensure_job-Started :
      (lo : Lo) (s : BackupSettings) (req : NamespacedName) (r : PvcRestore) (pvc : Pvc)
      → Started r
      → Safe (λ p. Started p.1) (ensure_job C lo s req r pvc)
  unfolding ensure_job
  ensure_job-Started lo s req r pvc started = Safe-bind _ _ (Plain-call _) λ reply _.
      Safe-or_create (λ p. Started p.1) (with_restore r reply) _
        (λ p e. with_restore-Started r reply p started e)
        (Safe-bind _ _ (Plain-or_fail _) λ owners _. Safe-bind _ _ (Plain-call _) λ created _.
          Safe-bind _ _ (Plain-or_fail created)
            λ job _. Ends-pure _ (λ w _. with_defaults-Started r started))

module _ (C : Client) (stores : StoresStart C) (lo : Lo) (cfg : RestoreConfig) where
  restore_into-Plain :
      (req : NamespacedName) (target : String) (r : PvcRestore)
      → Started r
      → Plain C (restore_into C lo cfg req target r)
  unfolding restore_into
  restore_into-Plain req target r started =
      Safe-bind C _ _ (ensure_target-Plain C _ req target r) λ pvc _.
        Ends-if (not (is_marked pvc.meta.annotations r.meta.uid)) _ _
          (λ _. end_restore-Plain C "Failed" r started)
          λ _. Safe-bind C _ _ (ensure_job-Started C lo _ req r pvc started) λ p started'.
            Ends-if (not (is_marked p.0.meta.annotations p.1.meta.uid)) _ _
              (λ _. end_restore-Plain C "Failed" p.1 started')
              λ _.
                Ends-if (is_zero p.0.completion_time) _ _ (λ _. Plain-pure C _)
                  (λ _. unmark-Plain C p.1 pvc started')

  reconcile_restore-Plain :
      (req : NamespacedName) (r : PvcRestore) → Plain C (reconcile_restore C lo cfg req r)
  unfolding reconcile_restore
  reconcile_restore-Plain req r =
      Ends-if (not (is_zero r.status.finished_at)) _ _ (λ _. Plain-pure C _)
        λ _.
          Ends-if (str_eq (target_of r) "") _ _ (λ _. Ends-exit _ (λ _ _. tt))
            λ _.
              Safe-bind C _ _ (start_if_unset-Started C stores r r.status.started_at refl)
                λ s started. restore_into-Plain req (target_of r) s started

  exit_of-NoPanic :
      (r : Step C.Failure Result) (w : C.World)
      → Post (λ _ _. Unit) Calm (r, w)
      → NoPanic (exit_of r)
  exit_of-NoPanic (next r) w h = tt
  exit_of-NoPanic (stop e) w h = h

  -- Where the API stores a PVCRestore with the start time that it is sent with, no reconcile of a
  -- PVCRestore panics: it has a start time whenever its duration is computed.
  pub restore-NoPanic : (req : NamespacedName) (w : C.World) → NoPanic (reconcile C lo cfg req w).0
  unfolding reconcile
  restore-NoPanic req w = exit_of-NoPanic _ _ (
      (Safe-bind C {Fact = λ _. Unit} _ _
          (Ends-when (ignores lo cfg.namespaces cfg.exclude_namespaces req.namespace) _
            (λ _. Ends-exit _ (λ _ _. tt)) (λ _ _ _. tt))
          λ _ _. Safe-bind C _ _ (Plain-call C _) λ reply _.
            Safe-bind C _ _ (Safe-or_gone C reply) λ r _. reconcile_restore-Plain req r).at
        w tt)
