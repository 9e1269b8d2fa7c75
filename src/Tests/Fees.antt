-- ===== src/Tests/Fees.antt =====
-- The prices of concrete sessions.
use parkirpintar.Common.{ℕ, ◌≡◌, refl, ◌+◌, ◌-◌, ◌*◌, ◌≤◌, ◌<◌, ◌⊎◌, ◌↔◌, true}
use parkirpintar.Common.Time.{minute, hour, day}
use parkirpintar.Pricing.{billed_hours, is_overnight, wib_local}
use parkirpintar.Pricing.Hours.{billed_hours-IsLeast}
use parkirpintar.Pricing.Overnight.{is_overnight_iff}
use parkirpintar.Tests.{noon}

-- One hour and 59 seconds are one hour, one hour and one minute are two.
billed_hours_test :
    (billed_hours noon (noon + hour + 59_000_000_000) ≡ 1)
    × (billed_hours noon (noon + hour + minute) ≡ 2)
unfolding billed_hours
billed_hours_test = (refl, refl)

billed_hours-IsLeast_example :
    (billed_hours noon (noon + 3 * hour) ≤ 720)
    × (((noon + 3 * hour) - noon < billed_hours noon (noon + 3 * hour) * hour + minute)
        ⊎ (billed_hours noon (noon + 3 * hour) ≡ 720))
    × ((billed_hours noon (noon + 3 * hour) ≤ 4) ⊎ (4 * hour + minute ≤ (noon + 3 * hour) - noon))
billed_hours-IsLeast_example = billed_hours-IsLeast noon (noon + 3 * hour) 4

is_overnight_iff_example :
    (is_overnight noon (noon + 20 * hour) ≡ true)
    ↔ ((k : ℕ) × (wib_local noon < k * day) × (k * day ≤ wib_local (noon + 20 * hour)))
is_overnight_iff_example = is_overnight_iff noon (noon + 20 * hour)
