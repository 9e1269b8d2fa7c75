-- ===== src/Pricing/Overnight.antt =====
-- The overnight test of pkg/pricing/pricing.go.
use parkirpintar.Common.{ℕ, ◌*◌, ◌/◌, ◌≤◌, ◌<◌, ◌≡◌, ◌↔◌, true, arith}
use parkirpintar.Common.Time.{Time, day}
use parkirpintar.Pricing.{is_overnight, wib_local}

-- A session counts as overnight exactly when some WIB midnight lies after its start and not after
-- its end.
pub is_overnight_iff :
    (s e : Time)
    → (is_overnight s e ≡ true) ↔ ((k : ℕ) × (wib_local s < k * day) × (k * day ≤ wib_local e))
unfolding is_overnight
is_overnight_iff s e = (λ h. (wib_local e / day, ground arith, ground arith), λ h. ground arith)
