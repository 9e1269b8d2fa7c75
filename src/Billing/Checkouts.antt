-- ===== src/Billing/Checkouts.antt =====
-- What the subscriber of services/billing/internal/subscriber/subscriber.go bills.
use parkirpintar.Common.{ℕ, ◌≡◌, ◌+◌, ◌-◌, ◌≤◌, true, false, ◌∷◌, none, ◌==◌, arith}
use parkirpintar.Common.Time.{Time, hour}
use parkirpintar.World.{World, Message, now, new_uuid, call}
use parkirpintar.Shared.Lock.{redis_get}
use parkirpintar.Shared.Idempotency.{check, save}
use parkirpintar.Pricing.{calculate, billed_hours}
use parkirpintar.Billing.Domain.{Invoice}
use parkirpintar.Billing.Repository.{insert_invoice, is_taken}
use parkirpintar.Billing.Usecase.{
  idempotency_entry, session_invoice, generate_fresh, generate_invoice,
}
use parkirpintar.Billing.Subscriber.{bill_check_out, handle_check_out, deliver}

-- Whatever the length of the session, the invoice that a check-out event leads to bills one hour.
billed_hours_one : (t : Time) → hour ≤ t → billed_hours (t - hour) t ≡ 1
unfolding billed_hours
billed_hours_one t h = ground arith

-- The invoice that a check-out event leads to.
abbrev pub check_out_invoice : Message → World → Invoice
check_out_invoice msg w =
    session_invoice (w.env.uuid (w.ticks + 1 + 1)) msg.payload.session_id msg.payload.reservation_id
      msg.payload.driver_id (w.env.uuid w.ticks) (msg.timestamp - hour) msg.timestamp
      (w.env.clock (w.ticks + 1 + 1 + 1))

-- A delivery of a check-out event with a session, where no call fails, the new key is not cached
-- and neither the new id nor the new key is in the table, is acknowledged and adds an invoice that
-- bills exactly one hour, however long the session was and whichever invoices of the same session
-- there are.
pub deliver_adds :
    (msg : Message) (w : World)
    → (msg.payload.session_id == "") ≡ false
    → hour ≤ msg.timestamp
    → ((n : ℕ) → w.env.fault n ≡ none)
    → redis_get (idempotency_entry (w.env.uuid w.ticks)) (w.env.clock (w.ticks + 1)) w.redis ≡ none
    → is_taken (check_out_invoice msg w) w.invoices ≡ false
    → let (acked, w') = deliver msg w in
      (acked ≡ true)
      × (w'.invoices
          ≡ record (check_out_invoice msg w) { created_at = w.env.clock (w.ticks + 1 + 1 + 1 + 1) }
            ∷ w.invoices)
      × ((check_out_invoice msg w).session_id ≡ msg.payload.session_id)
      × ((check_out_invoice msg w).billed_hours ≡ 1)
      × ((check_out_invoice msg w).parking_fee ≡ 5000)
unfolding deliver handle_check_out bill_check_out generate_invoice check generate_fresh
    insert_invoice now new_uuid call save session_invoice calculate
deliver_adds msg w session late up miss fresh = ground (
  arith,
  up (w.ticks + 1),
  up (w.ticks + 1 + 1 + 1 + 1),
  up (w.ticks + 1 + 1 + 1 + 1 + 1),
  billed_hours_one msg.timestamp late,
)
