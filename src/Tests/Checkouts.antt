-- ===== src/Tests/Checkouts.antt =====
-- A booking that is charged at the gateway, and a check-out there.
use parkirpintar.Common.{◌≡◌, refl, ◌+◌, ◌*◌, [], ◌∷◌, some, ◌⧺◌, if◌then◌else◌}
use parkirpintar.Common.Int.{pos}
use parkirpintar.Payment.Repository
use parkirpintar.Table.{select, find}
use parkirpintar.World.{World, ok, now, new_uuid, call}
use parkirpintar.Shared.Lock.{redis_get, release, release_script}
use parkirpintar.Shared.Idempotency.{check, save}
use parkirpintar.Pricing.{billed_hours, is_overnight, calculate}
use parkirpintar.Reservation.Domain.{Row, active}
use parkirpintar.Reservation.Repository.{row_of, join, get_reservation, update_check_out}
use parkirpintar.Reservation.Publisher.{publish}
use parkirpintar.Reservation.Usecase.{idempotency_entry, check_out_fresh, check_out, spot_lock_key}
use parkirpintar.Reservation.Handler.{
  handle_check_out, handle_get, domain_reservation_to_proto, domain_spot_to_proto,
  domain_status_to_proto,
}
use parkirpintar.Billing.Domain.{pending_payment, booking_fee_type}
use parkirpintar.Billing.Repository.{is_taken, insert_invoice}
use parkirpintar.Billing.Usecase.{
  booking_invoice, session_invoice, generate_fresh, generate_invoice,
}
use parkirpintar.Billing.Handler.{handle_generate, domain_invoice_to_proto}
use parkirpintar.Payment.Domain.{Transaction}
use parkirpintar.Payment.Gateway.{Gateway, webhook_signature, first_eight}
use parkirpintar.Payment.Repository.{insert_transaction}
use parkirpintar.Payment.Usecase.{
  is_qris, create_codes, qris_codes, new_transaction, create_fresh, create_transaction,
}
use parkirpintar.Payment.Handler.{
  CreateResponse, status_pending, method_qris, handle_create, proto_to_payment_method,
}
use parkirpintar.Gateway.Client.{rpc}
use parkirpintar.Gateway.Confirmation.{
  invoice_id_of, insert_booking_row, insert_booking_fee, create_booking_fee_invoice,
}
use parkirpintar.Gateway.Handler.{CheckOutAnswer, pay_booking, charge_booking}
use parkirpintar.Gateway
use parkirpintar.Gateway.Charging.{fee_invoice, IsPaymentOf, charge_booking_success}
use parkirpintar.Gateway.Billed.{check_out_bills}
use parkirpintar.Tests.{ids, clock_at}
use parkirpintar.Tests.Bookings.{alice1, made}

abbrev open_gateway : Gateway
open_gateway = record {
  create_qris = λ order amount customer env n. (ok ("qr", "url", clock_at 90), n + 1);
  create_va = λ order bank amount customer env n. (ok ("va", clock_at 90), n + 1);
  verify_webhook_signature = webhook_signature (λ s. s);
}

abbrev paid : CreateResponse
paid = record {
  transaction_id = ids 10;
  gateway_tx_id = "PP-" ⧺ first_eight (ids 10);
  status = status_pending;
  payment_method = method_qris;
  payment_url = "url";
  qr_string = "qr";
  va_number = "";
  va_bank = "";
  expired_at = some (clock_at 90);
}

abbrev charged : World
charged = (charge_booking open_gateway (ids 0) "alice" "k1" made).1

charge_test : charge_booking open_gateway (ids 0) "alice" "k1" made ≡ (ok paid, charged)
unfolding charge_booking create_booking_fee_invoice invoice_id_of insert_booking_fee
    insert_booking_row pay_booking rpc handle_create proto_to_payment_method create_transaction
    create_fresh create_codes qris_codes is_qris new_transaction first_eight check
    insert_transaction redis_get is_taken Repository.is_taken select find now new_uuid call save
charge_test = refl

charge_booking_success_example :
    let i = fee_invoice (ids 0) "alice" "k1" made in
    (charged.invoices ≡ i ∷ [])
    × ((i.kind ≡ booking_fee_type)
        × (i.reservation_id ≡ ids 0)
        × (i.total_amount ≡ 5000)
        × (i.status ≡ pending_payment))
    × ((t : Transaction) × (charged.transactions ≡ t ∷ [])
        × (t.transaction_id ≡ ids 10)
        × IsPaymentOf i.invoice_id t)
    × (charged.reservations ≡ made.reservations)
unfolding booking_invoice find
charge_booking_success_example =
    charge_booking_success open_gateway (ids 0) "alice" "k1" paid made charged refl refl charge_test

-- Alice is parked.
abbrev parked_row : Row
parked_row = record (row_of alice1) {
  status = active;
  session_id = some "s";
  check_in_at = some (clock_at 300);
}

abbrev parked : World
parked = record made { ticks = 500; reservations = parked_row ∷ [] }

abbrev left : World
left = (Gateway.Handler.check_out (some "alice") (ids 0) "k3" parked).1

abbrev bill : CheckOutAnswer
bill = record {
  session_id = "s";
  check_out_at = clock_at 503;
  duration_minutes = pos 33;
  invoice_id = ids 515;
  invoice_summary = record {
    invoice_id = ids 515;
    booking_fee = 5000;
    parking_fee = 10000;
    overnight_fee = 20000;
    total_amount = 30000;
    status = "INVOICE_STATUS_PENDING_PAYMENT";
    billed_hours = 2;
  };
}

check_out_test : Gateway.Handler.check_out (some "alice") (ids 0) "k3" parked ≡ (ok bill, left)
unfolding Gateway.Handler.check_out rpc handle_check_out handle_get handle_generate check_out
    check_out_fresh check get_reservation update_check_out join publish release release_script save
    generate_invoice generate_fresh session_invoice insert_invoice is_taken calculate billed_hours
    is_overnight redis_get select find now new_uuid call domain_reservation_to_proto
    domain_spot_to_proto domain_status_to_proto domain_invoice_to_proto idempotency_entry
    parkirpintar.Table.update parkirpintar.Shared.Lock.redis_set
    parkirpintar.Billing.Usecase.idempotency_entry spot_lock_key
check_out_test = refl

check_out_bills_example :
    30000
    ≡ 5000 * billed_hours (clock_at 2) (clock_at 503)
      + (if is_overnight (clock_at 2) (clock_at 503) then 20000 else 0)
unfolding select find
check_out_bills_example =
    check_out_bills "alice" (ids 0) "k3" bill parked_row parked left refl refl check_out_test
