-- ===== src/Gateway/Settling.antt =====
-- What SimulateSettle and GetPendingPayment of services/gateway/internal/handler/extra.go do.
use parkirpintar.Common.{◌≡◌, ◌+◌, ◌≤◌, some, Option, String, arith}
use parkirpintar.Table.{select, update}
use parkirpintar.World.{World, ok, now, call}
use parkirpintar.Reservation.Domain.{Reservation, pending}
use parkirpintar.Reservation.Repository.{row_id, join}
use parkirpintar.Reservation.Outcomes.{Untouched}
use parkirpintar.Billing.Repository.{mark_paid}
use parkirpintar.Payment.Domain.{settled}
use parkirpintar.Payment.Repository.{transaction_key, set_status, update_status}
use mathlib.Core.Option
use parkirpintar.Gateway.Pending.{
  PendingPayment, joined_reservation, newest_payment, pending_answer, get_pending_payment,
}
use parkirpintar.Gateway.Settlement.{
  SettleAnswer, transaction_row, settle_row, invoice_of, pay_settled, settle_found, simulate_settle,
}

-- A pending payment that is answered is that of a pending reservation whose time is not over at the
-- reading of the clock.
pub get_pending_payment_success :
    (user : Option String) (id : String) (a : PendingPayment) (w w' : World)
    → get_pending_payment user id w ≡ (ok a, w')
    → let found = join w.spots (select row_id id w.reservations) in
      (Option.map (λ (r : Reservation). r.status) found ≡ some pending)
      × (Option.map (λ (r : Reservation). r.expires_at) found ≡ some a.expires_at)
      × (w.env.clock (w.ticks + 1) ≤ a.expires_at)
      × (a.reservation_id ≡ id)
unfolding get_pending_payment joined_reservation pending_answer newest_payment now call
get_pending_payment_success user id a w w' h = ground arith

-- Asking for a pending payment changes nothing, whatever it answers.
pub get_pending_payment-Untouched :
    (user : Option String) (id : String) (w : World) → Untouched w (get_pending_payment user id w).1
unfolding get_pending_payment joined_reservation pending_answer newest_payment now call
get_pending_payment-Untouched user id w = ground arith

-- A settlement that is simulated makes the transaction settled, whatever its status was and whoever
-- asks, and leaves the reservations and Redis alone.
pub simulate_settle_success :
    (sha512_hex : String → String) (server_key : String) (id : String) (a : SettleAnswer)
    (w w' : World)
    → simulate_settle sha512_hex server_key (some id) w ≡ (ok a, w')
    → (w'.transactions
        ≡ update transaction_key id
            (set_status settled (some (w.env.clock (w.ticks + 1))))
            w.transactions)
      × (w'.reservations ≡ w.reservations)
      × (w'.redis ≡ w.redis)
unfolding simulate_settle transaction_row settle_found settle_row update_status invoice_of
    pay_settled mark_paid now call
simulate_settle_success sha512_hex server_key id a w w' h = ground arith
