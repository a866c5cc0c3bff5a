-- ===== src/Go.antt =====
-- What the source uses of Go's standard library: time, slices.Sort and decimal printing; and the
-- helpers of github.com/samber/lo, which are a parameter.
pub mod Time
pub mod Decimal
pub mod Sort
pub mod Lo
pub mod Strings
