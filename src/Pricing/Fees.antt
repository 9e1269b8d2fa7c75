-- ===== src/Pricing/Fees.antt =====
-- The amounts of pkg/pricing/pricing.go.
use parkirpintar.Common.{◌+◌, ◌-◌, ◌*◌, ◌≤◌, ◌<◌, ◌≡◌, ◌↔◌, Bool, false, arith, if◌then◌else◌}
use parkirpintar.Common.Time.{Time, minute}
use parkirpintar.Pricing.{billed_hours, is_overnight, calculate, calculate_cancellation_fee}
use parkirpintar.Pricing.Hours.{billed_hours-IsLeast}

-- The total of a bill is 5000 for each billed hour and 20000 for an overnight session, without the
-- booking fee, and at most 3620000.
pub calculate_total :
    (s e : Time)
    → ((calculate s e).total ≡ 5000 * billed_hours s e + (if is_overnight s e then 20000 else 0))
      × ((calculate s e).total ≡ (calculate s e).parking + (calculate s e).overnight)
      × ((calculate s e).total ≤ 3620000)
unfolding calculate
calculate_total s e = ground (arith, billed_hours-IsLeast s e 0)

-- The cancellation fee is 5000 exactly when the driver has shown up to cancel and did so more than
-- two minutes after the confirmation, and 0 in every other case.
pub calculate_cancellation_fee_iff :
    (t u : Time) (no_show : Bool)
    → ((calculate_cancellation_fee t u no_show ≡ 5000) ↔ ((no_show ≡ false) × (2 * minute < u - t)))
      × ((calculate_cancellation_fee t u no_show ≡ 0)
          ↔ ¬ ((no_show ≡ false) × (2 * minute < u - t)))
unfolding calculate_cancellation_fee
calculate_cancellation_fee_iff t u no_show = ground arith
