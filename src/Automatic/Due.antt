-- ===== src/Automatic/Due.antt =====
-- The time at which a backup is due, against the creation of the PVC and of its backups.
use backsnap.Base.{◌≡◌, refl, ◌∙◌, ◌⊎◌, inl, inr, List, [], ◌∷◌, foldl, All, arith}
use backsnap.Base.Int.{pos, ◌<ℤ◌, ◌≤ℤ◌}
use backsnap.Go.Time.{Time}
use backsnap.Go.Lo.{Lo, IsLawful}
use backsnap.Kube.{Pvc}
use backsnap.Api.{PvcBackup}
use backsnap.Automatic.Schedule.{Cron, Float, newer_of, newest_backup, next_backup}
use mathlib.Core.List.{Memᴰ}

-- cronexpr: Next returns the closest time that follows `fromTime` and matches the expression. "The
-- zero value of time.Time is returned if no matching time stamp exists or if a `fromTime` is itself
-- a zero value."
pub record IsCron (cron : Cron) : Type 0 where
  pub next_after-zero : (e : cron.Expression) → cron.next_after e (pos 0) ≡ pos 0
  pub next_after-gt :
      (e : cron.Expression) (t : Time) → (cron.next_after e t ≡ pos 0) ⊎ (t <ℤ cron.next_after e t)

abbrev pub created : PvcBackup → Time
created b = b.meta.creation_timestamp

newest-ge_start : (bs : List PvcBackup) (t : Time) → t ≤ℤ foldl newer_of t bs
unfolding newer_of
newest-ge_start [] t = omega arith
newest-ge_start (b ∷ bs) t = ground (arith, newest-ge_start bs (newer_of t b))

newer_of_bounds : (t : Time) (b : PvcBackup) → (t ≤ℤ newer_of t b) × (created b ≤ℤ newer_of t b)
unfolding newer_of
newer_of_bounds t b = ground arith

newest-ge_each : (bs : List PvcBackup) (t : Time) → All (λ b. created b ≤ℤ foldl newer_of t bs) bs
newest-ge_each [] t = tt
newest-ge_each (b ∷ bs) t = (
  omega (arith, newest-ge_start bs (newer_of t b), newer_of_bounds t b),
  newest-ge_each bs (newer_of t b),
)

newer_of_cases : (t : Time) (b : PvcBackup) → (newer_of t b ≡ t) ⊎ (newer_of t b ≡ created b)
unfolding newer_of
newer_of_cases t b = ground arith

newest-mem :
    (bs : List PvcBackup) (t : Time)
    → (foldl newer_of t bs ≡ t) ⊎ ((b : PvcBackup) × Memᴰ b bs × (foldl newer_of t bs ≡ created b))
newest-mem [] t = inl refl
newest-mem (b ∷ bs) t = elim (newest-mem bs (newer_of t b)) [
  | inl same ↦ elim (newer_of_cases t b) [
    | inl kept ↦ inl (same ∙ kept)
    | inr taken ↦ inr (b, Memᴰ.head refl, same ∙ taken)
  ]
  | inr (c, mem, same) ↦ inr (c, Memᴰ.tail mem, same)
]

next_after_twice :
    (cron : Cron)
    → IsCron cron
    → (e : cron.Expression) (t : Time)
    → let u = cron.next_after e (cron.next_after e t) in (u ≡ pos 0) ⊎ (t <ℤ u)
next_after_twice cron L e t = elim (L.next_after-gt e t) [
  | inl none_left ↦ inl (rw none_left (L.next_after-zero e))
  | inr later ↦ elim (L.next_after-gt e (cron.next_after e t)) [
    | inl none_left ↦ inl none_left
    | inr later' ↦ inr (omega arith)
  ]
]

next_backup-gt :
    (cron : Cron)
    → IsCron cron
    → (fl : Float) (e : cron.Expression) (t : Time)
    → (next_backup cron fl e t ≡ pos 0) ⊎ (t <ℤ next_backup cron fl e t)
unfolding next_backup
next_backup-gt cron L fl e t = ground (arith, L.next_after-gt e t, next_after_twice cron L e t)

All-gt :
    (bs : List PvcBackup) (t u : Time)
    → All (λ b. created b ≤ℤ t) bs
    → t <ℤ u
    → All (λ b. created b <ℤ u) bs
All-gt [] t u h lt = tt
All-gt (b ∷ bs) t u h lt = (omega arith, All-gt bs t u h.1 lt)

due_lem :
    (cron : Cron)
    → IsCron cron
    → (fl : Float) (e : cron.Expression) (bs : List PvcBackup) (t : Time)
    → let u = next_backup cron fl e (foldl newer_of t bs) in
      (u ≡ pos 0) ⊎ ((t <ℤ u) × All (λ b. created b <ℤ u) bs)
due_lem cron L fl e bs t = elim (next_backup-gt cron L fl e (foldl newer_of t bs)) [
  | inl none_left ↦ inl none_left
  | inr later ↦ inr (omega (arith, newest-ge_start bs t), All-gt bs _ _ (newest-ge_each bs t) later)
]

module _ (lo : Lo) (L : IsLawful lo) where
  newest_backup-eq :
      (pvc : Pvc) (bs : List PvcBackup)
      → newest_backup lo pvc bs ≡ foldl newer_of pvc.meta.creation_timestamp bs
  unfolding newest_backup
  newest_backup-eq pvc bs = L.reduce-eq PvcBackup Time bs newer_of _

  -- The time from which the next backup is computed is the creation of the PVC or of a listed
  -- backup, and none of these was created later.
  pub newest_backup_max :
      (pvc : Pvc) (bs : List PvcBackup)
      → let t = newest_backup lo pvc bs in
        (pvc.meta.creation_timestamp ≤ℤ t)
        × All (λ b. created b ≤ℤ t) bs
        × ((t ≡ pvc.meta.creation_timestamp) ⊎ ((b : PvcBackup) × Memᴰ b bs × (t ≡ created b)))
  newest_backup_max pvc bs =
      let t = pvc.meta.creation_timestamp in
      rw newest_backup-eq (newest-ge_start bs t, newest-ge_each bs t, newest-mem bs t)

  -- Where Next of cronexpr gives, as it documents, a later time or the zero time, and the zero time
  -- for the zero time; and whatever the float arithmetic of the tolerance gives: the time that the
  -- creator of backups waits for is either the zero time or lies after the creation of the PVC and
  -- after the creation of every listed backup of it.
  pub due_after_each :
      (cron : Cron)
      → IsCron cron
      → (fl : Float) (e : cron.Expression) (pvc : Pvc) (bs : List PvcBackup)
      → let t = next_backup cron fl e (newest_backup lo pvc bs) in
        (t ≡ pos 0) ⊎ ((pvc.meta.creation_timestamp <ℤ t) × All (λ b. created b <ℤ t) bs)
  due_after_each cron L fl e pvc bs =
      rw newest_backup-eq (due_lem cron L fl e bs pvc.meta.creation_timestamp)
