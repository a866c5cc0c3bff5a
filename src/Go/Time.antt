-- ===== src/Go/Time.antt =====
-- `time.Time` and `time.Duration` of Go. A time is the nanoseconds since Go's zero time, a
-- duration is nanoseconds in an int64. A nil `*metav1.Time` is `none`.
use backsnap.Base.{ℕ, ◌+◌, ◌-◌, ◌/◌, ◌%◌, ◌≡◌, refl, Bool, true, Option, none, some}
use backsnap.Base.{arith, ltb, if◌then◌else◌}
use backsnap.Base.Int.{ℤ, pos, negsuc, ◌+ℤ◌, ◌-ℤ◌, ◌≤ℤ◌, ltb_ℤ, eq_ℤ}

abbrev pub Time : Type 0
Time = ℤ

abbrev pub Duration : Type 0
Duration = ℤ

abbrev pub second : Duration
second = pos 1000000000

abbrev pub hour : Duration
hour = pos 3600000000000

abbrev pub max_duration : Duration
max_duration = pos 9223372036854775807

abbrev pub min_duration : Duration
min_duration = negsuc 9223372036854775807

-- The nearest int64.
unfoldable pub saturate : ℤ → Duration
saturate d =
    if ltb_ℤ max_duration d then max_duration else if ltb_ℤ d min_duration then min_duration else d

-- `t.IsZero()`, also of a nil `*metav1.Time`.
abbrev pub is_zero : Option Time → Bool
is_zero none = true
is_zero (some t) = eq_ℤ t (pos 0)

-- `t.After(u)`
abbrev pub after : Time → Time → Bool
after t u = ltb_ℤ u t

-- `t.Sub(u)`, which saturates.
unfoldable pub sub : Time → Time → Duration
unfolding saturate
sub t u = saturate (t -ℤ u)

-- `t.Add(d)`
abbrev pub add : Time → Duration → Time
add t d = t +ℤ d

-- `uint64(x) + uint64(x) < uint64(y)`: whether to round towards zero.
round_magnitude : ℕ → ℕ → ℕ
round_magnitude k m = if ltb (k % m + k % m) m then k - k % m else k + (m - k % m)

-- `d.Round(m)` for a positive `m`: half away from zero, and saturating.
unfoldable pub round : Duration → ℕ → Duration
unfolding round_magnitude saturate
round (pos n) m = saturate (pos (round_magnitude n m))
round (negsuc n) m = saturate (pos 0 -ℤ pos (round_magnitude (n + 1) m))

-- `t.Unix()`: whole seconds since 1970, rounded down.
unfoldable pub unix : Time → ℤ
unix (pos n) = pos (n / 1000000000) -ℤ pos 62135596800
unix (negsuc n) = pos 0 -ℤ pos (n / 1000000000 + 1) -ℤ pos 62135596800

pub saturate_range : (d : ℤ) → (min_duration ≤ℤ saturate d) × (saturate d ≤ℤ max_duration)
unfolding saturate
saturate_range d = ground arith

-- 1.5 seconds round up to 2, -1.5 seconds to -2, and 1.49 seconds to 1.
round_half : round (pos 1500000000) 1000000000 ≡ pos 2000000000
unfolding round ◌-ℤ◌
round_half = refl

round_negative : round (negsuc 1499999999) 1000000000 ≡ negsuc 1999999999
unfolding round ◌-ℤ◌
round_negative = refl

round_down : round (pos 1490000000) 1000000000 ≡ pos 1000000000
unfolding round ◌-ℤ◌
round_down = refl
