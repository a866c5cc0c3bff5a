-- ===== src/Automatic/Schedule.antt =====
-- When the next backup of a PVC is due.
use backsnap.Base.{String, Bool, none, some, List}
use backsnap.Base.{if◌then◌else◌}
use backsnap.Base.Int.{ℤ, pos}
use backsnap.Base.Dict.{lookup}
use backsnap.Go.Time.{Time, Duration, after, sub}
use backsnap.Go.Lo.{Lo}
use backsnap.Kube.{Pvc, Namespace}
use backsnap.Api.{PvcBackup}
use backsnap.Client.{Reply}
use backsnap.Settings.{backup_schedule_annotation}

-- github.com/hashicorp/cronexpr, which is third-party code. A parse error is its text.
pub record Cron : Type 1 where
  pub Expression : Type 0
  pub parse : String → Reply String Expression
  pub next_after : Expression → Time → Time

-- Go's float64, as far as the source uses it: the conversion of an int64, the product, the order
-- and the constant `ScheduleIntervalTolerance`, 0.01.
pub record Float : Type 1 where
  pub F64 : Type 0
  pub of_int : ℤ → F64
  pub product : F64 → F64 → F64
  pub less : F64 → F64 → Bool
  pub schedule_interval_tolerance : F64

-- `DefaultTTL`: three days.
abbrev pub default_ttl : Duration
default_ttl = pos 259200000000000

-- The schedule from the annotations of the PVC, else of the namespace, else the default.
unfoldable pub schedule_of : String → Pvc → Namespace → String
schedule_of default_schedule pvc namespace =
    elim (lookup backup_schedule_annotation pvc.meta.annotations) [
      | some s ↦ s
      | none ↦ elim (lookup backup_schedule_annotation namespace.meta.annotations) [
        | some s ↦ s
        | none ↦ default_schedule
      ]
    ]

-- The callback of the reduction.
unfoldable pub newer_of : Time → PvcBackup → Time
newer_of newest item =
    if after item.meta.creation_timestamp newest then item.meta.creation_timestamp else newest

-- The creation of the last backup, or of the PVC.
unfoldable pub newest_backup : Lo → Pvc → List PvcBackup → Time
unfolding newer_of
newest_backup lo pvc backups =
    lo.reduce PvcBackup Time backups (λ newest item _. newer_of newest item)
      pvc.meta.creation_timestamp

-- The next scheduled time, or the one after it if the last backup is within tolerance of it.
unfoldable pub next_backup : (cron : Cron) → Float → cron.Expression → Time → Time
next_backup cron fl e newest =
    let next = cron.next_after e newest in
    let following = cron.next_after e next in
    let actual_interval = sub next newest in
    let schedule_interval = sub following next in
    if fl.less (fl.of_int actual_interval)
      (fl.product (fl.of_int schedule_interval) fl.schedule_interval_tolerance)
    then following
    else next
