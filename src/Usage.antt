-- ===== src/Usage.antt =====
-- internal/usage/usage.go: the traffic between two readings of a counter, and the window that the
-- charts draw. Times are seconds since 1970; the first second of a window is modelled for a clock
-- that shows at least thirty days after that. The fold and the sums over containers are left out.
pub mod Windows
mod Tests
use cash_pilot_desktop.Base.{
  ℕ, zero, suc, ◌+◌, ◌-◌, ◌*◌, ◌/◌, Bool, List, [], ◌∷◌, if◌then◌else◌, ltb, leb, min, max, ℤ,
  pos_part,
}

-- A 64-bit counter is not negative: both are bytes since a start.
unfoldable pub counter_delta : ℕ → ℕ → ℕ
counter_delta previous current = if ltb current previous then current else current - previous

unfoldable pub clamp_days : ℤ → ℕ
clamp_days days = min (max (pos_part days) 1) 30

unfoldable pub step : ℤ → ℕ
step days = if leb (clamp_days days) 7 then 3600 else 21600

-- How many points a window has.
unfoldable pub points : ℤ → ℕ
points days = clamp_days days * 86400 / step days

unfoldable pub since : ℤ → ℕ → ℕ
since days now = now / step days * step days - (points days - 1) * step days

unfoldable pub hours_from : ℕ → ℕ → ℕ → List ℕ
hours_from first width zero = []
hours_from first width (suc n) = first ∷ hours_from (first + width) width n

-- The starts of the points, oldest first.
unfoldable pub hours : ℤ → ℕ → List ℕ
hours days now = hours_from (since days now) (step days) (points days)
