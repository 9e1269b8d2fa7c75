-- ===== src/Tests/Invoices.antt =====
-- An invoice that is generated, asked for again and paid, and the one of a check-out event.
use parkirpintar.Common.{
  ℕ, ◌≡◌, refl, ◌+◌, ◌-◌, ◌*◌, ◌<◌, [], ◌∷◌, true, false, none, some, String, ◌⧺◌, ◌==◌, arith,
  if◌then◌else◌,
}
use parkirpintar.Common.Time.{hour}
use parkirpintar.Table.{find, select, update}
use parkirpintar.World.{World, Message, ok, err, now, new_uuid, call}
use parkirpintar.Shared.Lock.{redis_get, redis_set}
use parkirpintar.Shared.Idempotency.{save}
use parkirpintar.Pricing.{calculate, billed_hours, is_overnight}
use parkirpintar.Billing.Domain.{Invoice}
use parkirpintar.Billing.Repository.{
  is_taken, insert_invoice, insert_error, get_invoice, mark_paid, pay,
}
use parkirpintar.Billing.Usecase.{
  idempotency_entry, session_invoice, generate_fresh, generate_booking_fresh, booking_invoice,
  generate_invoice, mark_invoice_paid,
}
use parkirpintar.Billing.Subscriber.{deliver}
use parkirpintar.Billing.Invoicing.{generate_invoice_replay}
use parkirpintar.Billing.Checkouts.{check_out_invoice, deliver_adds}
use parkirpintar.Tests.{ids, clock_at, noon, start}

-- Three hours, invoiced.
abbrev first_invoice : Invoice
first_invoice =
    session_invoice (ids 0) "session" "r" "alice" "k" noon (noon + 3 * hour) (clock_at 1)

abbrev billed : World
billed = record start {
  ticks = 4;
  invoices = record first_invoice { created_at = clock_at 2 } ∷ [];
  redis = record { key = "idempotency:k"; value = ids 0; expires = clock_at 3 + 24 * hour } ∷ [];
}

generate_test :
    generate_fresh "session" "r" "alice" "k" noon (noon + 3 * hour) start
    ≡ (ok first_invoice, billed)
unfolding generate_fresh session_invoice insert_invoice is_taken find now new_uuid call save
    redis_set idempotency_entry calculate billed_hours is_overnight
generate_test = refl

abbrev booked : World
booked = record start {
  ticks = 4;
  invoices = booking_invoice (ids 0) "r" "alice" "k" (clock_at 2) ∷ [];
  redis = record { key = "idempotency:k"; value = ids 0; expires = clock_at 3 + 24 * hour } ∷ [];
}

booking_test :
    generate_booking_fresh "r" "alice" "k" start
    ≡ (ok (booking_invoice (ids 0) "r" "alice" "k" (clock_at 1)), booked)
unfolding generate_booking_fresh booking_invoice insert_invoice is_taken find now new_uuid call save
    redis_set idempotency_entry
booking_test = refl

-- The key is in the table, but no longer in Redis.
abbrev taken : World
taken = record billed { redis = [] }

generate_taken_test :
    generate_fresh "session" "r" "alice" "k" noon (noon + 3 * hour) taken
    ≡ (err "insert invoice: request already processed", record taken { ticks = 7 })
unfolding generate_fresh session_invoice insert_invoice insert_error is_taken find now new_uuid call
    save redis_set idempotency_entry calculate billed_hours is_overnight
    parkirpintar.Common.Grpc.contains parkirpintar.Common.Grpc.is_prefix
generate_taken_test = refl

generate_invoice_replay_example :
    let (answer, v') = generate_invoice "another" "r" "alice" "k" noon (noon + 9 * hour) billed in
    (answer ≡ ok (record first_invoice { created_at = start.env.clock (start.ticks + 1 + 1) }))
    × (v'.invoices ≡ billed.invoices)
generate_invoice_replay_example =
    generate_invoice_replay "session" "another" "r" "r" "alice" "alice" "k" noon noon
      (noon + 3 * hour) (noon + 9 * hour) start billed billed first_invoice generate_test refl refl
      refl (omega arith) refl refl

abbrev paid_invoice : Invoice
paid_invoice = pay "PP-1" "QRIS" (clock_at 4) (record first_invoice { created_at = clock_at 2 })

abbrev paid_up : World
paid_up = record billed { ticks = 6; invoices = paid_invoice ∷ [] }

mark_paid_test :
    mark_invoice_paid (ids 0) "PP-1" "QRIS" (clock_at 4) billed ≡ (ok paid_invoice, paid_up)
unfolding mark_invoice_paid mark_paid get_invoice update select find call session_invoice calculate
mark_paid_test = refl

-- The event of Alice's check-out after nine hours, when her session is invoiced already.
abbrev check_out_event : Message
check_out_event = record {
  event = "checkout.completed";
  timestamp = noon + 9 * hour;
  payload = record {
    reservation_id = "r";
    driver_id = "alice";
    spot_id = "s1";
    floor = 1;
    spot_number = 7;
    vehicle_type = "car";
    session_id = "session";
    status = "completed";
  };
}

deliver_adds_example :
    let (acked, w') = deliver check_out_event billed in
    (acked ≡ true)
    × (w'.invoices
        ≡ record (check_out_invoice check_out_event billed) {
          created_at = billed.env.clock (billed.ticks + 1 + 1 + 1 + 1);
        }
          ∷ billed.invoices)
    × ((check_out_invoice check_out_event billed).session_id ≡ check_out_event.payload.session_id)
    × ((check_out_invoice check_out_event billed).billed_hours ≡ 1)
    × ((check_out_invoice check_out_event billed).parking_fee ≡ 5000)
unfolding redis_get select find is_taken session_invoice idempotency_entry
deliver_adds_example = deliver_adds check_out_event billed refl (omega arith) (λ n. refl) refl refl
