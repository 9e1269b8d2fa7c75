-- ===== src/Payment/Charges.antt =====
-- What CreateTransaction of services/payment/internal/usecase/usecase.go writes and answers.
use parkirpintar.Common.{
  ◌≡◌, ◌≢◌, ◌-◌, ◌↔◌, ◌⊎◌, true, false, ◌||◌, ◌∷◌, none, ℕ, String, ◌⧺◌, arith,
}
use parkirpintar.World.{World, ok, err, now, new_uuid, call}
use parkirpintar.Shared.Idempotency.{save}
use parkirpintar.Payment.Domain.{Transaction, CustomerInfo, pending}
use parkirpintar.Payment.Gateway.{Gateway}
use parkirpintar.Payment.Repository.{is_taken, insert_transaction}
use parkirpintar.Payment.Usecase.{
  is_qris, is_va, order_of, qris_codes, va_codes, create_codes, new_transaction, create_fresh,
}
use parkirpintar.Payment.Handler.{
  ProtoPaymentMethod, method_unspecified, method_qris, method_gopay, method_ovo, method_dana,
  method_va_bca, method_va_bni, method_va_bri, method_va_mandiri, proto_to_payment_method,
}

-- The other tables, and the messages, are the same.
abbrev pub OnlyTransactions : World → World → Type 0
OnlyTransactions w w' =
    (w'.spots ≡ w.spots)
    × (w'.reservations ≡ w.reservations)
    × (w'.invoices ≡ w.invoices)
    × (w'.published ≡ w.published)

-- Asking for the codes changes no more than the number of requests made of the environment.
pub create_codes-keeps :
    (gw : Gateway) (order m : String) (amount : ℕ) (customer : CustomerInfo) (w : World)
    → let w' = (create_codes gw order m amount customer w).1 in
      (w'.env ≡ w.env)
      × (w'.transactions ≡ w.transactions)
      × (w'.redis ≡ w.redis)
      × OnlyTransactions w w'
unfolding create_codes qris_codes va_codes
create_codes-keeps gw order m amount customer w = ground arith

create_codes-supported :
    (gw : Gateway) (order m : String) (amount : ℕ) (customer : CustomerInfo) (w : World)
    → ((is_qris m || is_va m) ≡ true)
      ⊎ ((create_codes gw order m amount customer w).0 ≡ err ("unsupported payment method: " ⧺ m))
unfolding create_codes
create_codes-supported gw order m amount customer w = ground arith

-- A transaction that is created anew is for a supported method, and is added as one pending and
-- unpaid row with the amount and the order id "PP-" followed by the first eight bytes of its id; no
-- other transaction had its id, its order id or its key.
pub create_fresh_success :
    (gw : Gateway) (invoice driver key m : String) (amount : ℕ) (customer : CustomerInfo)
    (w w' : World) (tx : Transaction)
    → create_fresh gw invoice driver key m amount customer w ≡ (ok tx, w')
    → ((is_qris m || is_va m) ≡ true)
      × (is_taken tx w.transactions ≡ false)
      × (tx.status ≡ pending)
      × (tx.amount ≡ amount)
      × (tx.invoice_id ≡ invoice)
      × (tx.idempotency_key ≡ key)
      × (tx.gateway_tx_id ≡ order_of tx.transaction_id)
      × (w'.transactions
          ≡ record tx { created_at = w.env.clock (w'.ticks - 2); paid_at = none } ∷ w.transactions)
      × OnlyTransactions w w'
unfolding create_fresh new_transaction insert_transaction now new_uuid call save
create_fresh_success gw invoice driver key m amount customer w w' tx h =
    grind (arith, create_codes-keeps, create_codes-supported)

-- A creation that fails adds no transaction and caches no key, although the gateway may have been
-- asked for a payment.
pub create_fresh_failure :
    (gw : Gateway) (invoice driver key m : String) (amount : ℕ) (customer : CustomerInfo)
    (w w' : World) (e : String)
    → create_fresh gw invoice driver key m amount customer w ≡ (err e, w')
    → (w'.transactions ≡ w.transactions) × (w'.redis ≡ w.redis) × OnlyTransactions w w'
unfolding create_fresh new_transaction insert_transaction now new_uuid call save
create_fresh_failure gw invoice driver key m amount customer w w' e h =
    grind (arith, create_codes-keeps)

-- The texts of the payment methods of the API are supported, but for that of the unspecified one.
pub supported_iff :
    (m : ProtoPaymentMethod)
    → ((is_qris (proto_to_payment_method m) || is_va (proto_to_payment_method m)) ≡ true)
      ↔ (m ≢ method_unspecified)
unfolding proto_to_payment_method is_qris is_va
supported_iff method_unspecified = ground arith
supported_iff method_qris = ground arith
supported_iff method_gopay = ground arith
supported_iff method_ovo = ground arith
supported_iff method_dana = ground arith
supported_iff method_va_bca = ground arith
supported_iff method_va_bni = ground arith
supported_iff method_va_bri = ground arith
supported_iff method_va_mandiri = ground arith
