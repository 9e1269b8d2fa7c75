-- ===== src/Gateway/Latest.antt =====
-- Which reservations ReservationHistory of services/gateway/internal/handler/extra.go leaves out.
use parkirpintar.Common.{◌≡◌, ◌≤◌, ◌⊎◌, List, [], ◌∷◌}
use parkirpintar.World.{World}
use parkirpintar.Reservation.Domain.{Reservation}

-- Membership, by recursion.
abbrev pub In : {A : Type 0} → A → List A → Type 0
In a [] = ⊥
In a (b ∷ bs) = (a ≡ b) ⊎ In a bs

-- Every reservation of the list was confirmed when `x` was, or later.
abbrev pub AllLater : Reservation → List Reservation → Type 0
AllLater x [] = Unit {0}
AllLater x (y ∷ ys) = (x.confirmed_at ≤ y.confirmed_at) × AllLater x ys
