-- ===== src/Pricing/Hours.antt =====
-- The billed hours of pkg/pricing/pricing.go.
use parkirpintar.Common.{ℕ, ◌+◌, ◌-◌, ◌*◌, ◌≤◌, ◌<◌, ◌≡◌, ◌⊎◌, arith}
use parkirpintar.Common.Time.{Time, hour, minute}
use parkirpintar.Pricing.{billed_hours}

-- The billed hours are the least number h, at most 720, such that the session is shorter than
-- h hours and one minute; a session too long for every such h is billed 720 hours. So the seconds
-- after a full hour are free up to one minute.
pub billed_hours-IsLeast :
    (s e h : ℕ)
    → (billed_hours s e ≤ 720)
      × ((e - s < billed_hours s e * hour + minute) ⊎ (billed_hours s e ≡ 720))
      × ((billed_hours s e ≤ h) ⊎ (h * hour + minute ≤ e - s))
unfolding billed_hours
billed_hours-IsLeast s e h = ground arith

-- A session that ends later is billed no fewer hours.
pub billed_hours_mono : (s e e' : Time) → e ≤ e' → billed_hours s e ≤ billed_hours s e'
unfolding billed_hours
billed_hours_mono s e e' h = ground arith
