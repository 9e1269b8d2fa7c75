-- ===== src/Tests/Limits.antt =====
-- A limiter of two requests in ten instants.
use parkirpintar.Common.{◌≡◌, refl, arith, List, [], ◌∷◌}
use parkirpintar.Common.Time.{Time}
use parkirpintar.RateLimit.{Limiter, size, recent, allow, new_rate_limiter}
use parkirpintar.RateLimit.Window.{Event, IsOrdered, asks, ticks, accepted}

abbrev calls : List (Time × Event)
calls =
    (1, asks "a") ∷ (2, asks "b") ∷ (4, asks "a") ∷ (5, asks "a") ∷ (6, ticks) ∷ (13, asks "a") ∷ []

in_order : IsOrdered 0 13 calls
in_order = (
  omega arith,
  (omega arith, (omega arith, (omega arith, (omega arith, (omega arith, omega arith))))),
)

-- The third call of "a" is refused, the fourth goes through.
accepted_test : (accepted "a" calls (new_rate_limiter 2 10) []).1 ≡ 1 ∷ 4 ∷ 13 ∷ []
unfolding accepted new_rate_limiter allow recent size parkirpintar.RateLimit.sweep
accepted_test = refl
