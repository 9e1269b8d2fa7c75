-- ===== src/Gateway/Charging.antt =====
-- What CreateReservation of services/gateway/internal/handler/handler.go leaves for a booking that it
-- charges: an invoice of the booking fee and a payment of it.
use parkirpintar.Common.{
  ◌≡◌, ◌≢◌, refl, ◌∙◌, ◌+◌, ◌-◌, ℕ, ◌∷◌, inl, inr, none, String, ◌⧺◌, ◌==◌, arith,
}
use parkirpintar.Table.{find}
use parkirpintar.World.{World, Result, Result-cases, next_tick, ok, err, call, new_uuid}
use parkirpintar.Shared.Idempotency.{check}
use parkirpintar.Billing.Domain.{Invoice, pending_payment, booking_fee_type}
use parkirpintar.Billing.Usecase.{booking_invoice}
use parkirpintar.Payment.Domain.{Transaction, CustomerInfo, pending}
use parkirpintar.Payment.Repository.{get_by_idempotency_key}
use parkirpintar.Payment.Usecase.{create_fresh, create_transaction}
use parkirpintar.Payment.Charges.{create_fresh_success}
use parkirpintar.Payment.Handler.{
  CreateResponse, handle_create, customer_of, method_qris, proto_to_payment_method,
}
use parkirpintar.Payment.Gateway.{Gateway}
use parkirpintar.Gateway.Client.{rpc}
use parkirpintar.Gateway.Confirmation.{
  invoice_id_of, insert_booking_row, insert_booking_fee, create_booking_fee_invoice,
}
use parkirpintar.Gateway.Handler.{pay_booking, charge_booking}

-- The invoice of a booking whose charge begins in `w`.
abbrev pub fee_invoice : String → String → String → World → Invoice
fee_invoice reservation driver key w =
    booking_invoice (w.env.uuid (w.ticks + 1)) reservation driver ("booking-" ⧺ key)
      (w.env.clock (w.ticks + 1 + 1))

create_booking_fee_invoice_fresh :
    (reservation driver key id : String) (w w' : World)
    → find (λ (i : Invoice). i.idempotency_key == "booking-" ⧺ key) w.invoices ≡ none
    → create_booking_fee_invoice reservation driver ("booking-" ⧺ key) w ≡ (ok id, w')
    → (id ≡ w.env.uuid (w.ticks + 1))
      × (w'.invoices ≡ fee_invoice reservation driver key w ∷ w.invoices)
      × (w'.transactions ≡ w.transactions)
      × (w'.reservations ≡ w.reservations)
unfolding create_booking_fee_invoice invoice_id_of insert_booking_fee insert_booking_row new_uuid
    call
create_booking_fee_invoice_fresh reservation driver key id w w' new h = ground arith

-- A payment that is asked for with a key that no transaction has is a new transaction.
create_transaction_fresh :
    (gw : Gateway) (invoice driver key m : String) (amount : ℕ) (customer : CustomerInfo)
    (tx : Transaction) (w w' : World)
    → find (λ (t : Transaction). t.idempotency_key == key) w.transactions ≡ none
    → create_transaction gw invoice driver key m amount customer w ≡ (ok tx, w')
    → create_fresh gw invoice driver key m amount customer (next_tick w) ≡ (ok tx, w')
unfolding create_transaction check get_by_idempotency_key call
create_transaction_fresh gw invoice driver key m amount customer tx w w' new h = ground arith

-- What is known of the payment of an invoice.
abbrev pub IsPaymentOf : String → Transaction → Type 0
IsPaymentOf invoice t =
    (t.invoice_id ≡ invoice) × (t.amount ≡ 5000) × (t.status ≡ pending) × (t.paid_at ≡ none)

abbrev qris : String
qris = proto_to_payment_method method_qris

abbrev asked : Gateway → String → String → String → World → Result String Transaction × World
asked gw invoice driver key =
    create_transaction gw invoice driver ("pay-booking-" ⧺ key) qris 5000 (customer_of none)

pay_booking_fresh :
    (gw : Gateway) (invoice driver key : String) (resp : CreateResponse) (w w' : World)
    → find (λ (t : Transaction). t.idempotency_key == "pay-booking-" ⧺ key) w.transactions ≡ none
    → pay_booking gw invoice driver key w ≡ (ok resp, w')
    → (t : Transaction) × (w'.transactions ≡ t ∷ w.transactions)
      × (t.transaction_id ≡ resp.transaction_id)
      × IsPaymentOf invoice t
      × (w'.invoices ≡ w.invoices)
      × (w'.reservations ≡ w.reservations)
unfolding pay_booking rpc handle_create call
pay_booking_fresh gw invoice driver key resp w w' new h =
    elim (Result-cases (asked gw invoice driver key (next_tick w))) [
      | inl (tx, v, e) ↦
          let fresh =
            create_transaction_fresh gw invoice driver ("pay-booking-" ⧺ key) qris 5000
              (customer_of none) tx (next_tick w) v new e in
          let s =
            create_fresh_success gw invoice driver ("pay-booking-" ⧺ key) qris 5000
              (customer_of none) (next_tick (next_tick w)) v tx fresh in
          let t : Transaction = record tx {
            created_at = w.env.clock (v.ticks - 2);
            paid_at = none;
          } in
          (
            t,
            ground (arith, e, s),
            ground (arith, e, s),
            (ground (arith, s), ground (arith, s), ground (arith, s), refl),
            ground (arith, e, s),
            ground (arith, e, s),
          )
      | inr (x, v, e) ↦ absurd (ground (arith, e))
    ]

charge_booking-went :
    (gw : Gateway) (id driver key invoice : String) (resp : CreateResponse) (w v w' : World)
    → charge_booking gw id driver key w ≡ (ok resp, w')
    → create_booking_fee_invoice id driver ("booking-" ⧺ key) w ≡ (ok invoice, v)
    → pay_booking gw invoice driver key v ≡ (ok resp, w')
unfolding charge_booking
charge_booking-went gw id driver key invoice resp w v w' h e =
    elim (Result-cases (pay_booking gw invoice driver key v)) [
      | inl (a, u, paid) ↦ ground (arith, h, e, paid)
      | inr (x, u, paid) ↦ absurd (ground (arith, h, e, paid))
    ]

charge_booking-invoiced :
    (gw : Gateway) (id driver key e : String) (resp : CreateResponse) (w v w' : World)
    → charge_booking gw id driver key w ≡ (ok resp, w')
    → create_booking_fee_invoice id driver ("booking-" ⧺ key) w ≢ (err e, v)
unfolding charge_booking
charge_booking-invoiced gw id driver key e resp w v w' h =
    λ refused. absurd (ground (arith, h, refused))

-- A booking that is charged, with a key that no invoice and no transaction has yet, has a new invoice
-- of its booking fee, of 5000 and awaiting payment, and a new payment of that invoice, of 5000,
-- pending and with the id that is answered; no other invoice, no other transaction and no
-- reservation changes.
pub charge_booking_success :
    (gw : Gateway) (id driver key : String) (resp : CreateResponse) (w w' : World)
    → find (λ (i : Invoice). i.idempotency_key == "booking-" ⧺ key) w.invoices ≡ none
    → find (λ (t : Transaction). t.idempotency_key == "pay-booking-" ⧺ key) w.transactions ≡ none
    → charge_booking gw id driver key w ≡ (ok resp, w')
    → let i = fee_invoice id driver key w in
      (w'.invoices ≡ i ∷ w.invoices)
      × ((i.kind ≡ booking_fee_type)
          × (i.reservation_id ≡ id)
          × (i.total_amount ≡ 5000)
          × (i.status ≡ pending_payment))
      × ((t : Transaction) × (w'.transactions ≡ t ∷ w.transactions)
          × (t.transaction_id ≡ resp.transaction_id)
          × IsPaymentOf i.invoice_id t)
      × (w'.reservations ≡ w.reservations)
unfolding booking_invoice
charge_booking_success gw id driver key resp w w' new new' h =
    elim (Result-cases (create_booking_fee_invoice id driver ("booking-" ⧺ key) w)) [
      | inl (invoice, v, e) ↦
          let (named, rows, same, kept) =
            create_booking_fee_invoice_fresh id driver key invoice w v new e in
          let (t, added, answered, pays, rows', kept') =
            pay_booking_fresh gw invoice driver key resp v w' (rw same new')
              (charge_booking-went gw id driver key invoice resp w v w' h e) in
          (
            rows' ∙ rows,
            (refl, refl, refl, refl),
            (t, rw same at added, answered, rw named at pays),
            kept' ∙ kept,
          )
      | inr (x, v, e) ↦ absurd (charge_booking-invoiced gw id driver key x resp w v w' h e)
    ]
