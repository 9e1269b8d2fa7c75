-- ===== src/Gateway/Unreleased.antt =====
-- Requests of the gateway, the billing and the payment service while a lock is held: none of them
-- gives it back.
use parkirpintar.Common.{
  ◌≡◌, ◌≢◌, ℕ, ◌+◌, ◌≤◌, List, Option, none, some, String, ◌⧺◌, ◌==◌, inl, inr, arith, ap, eq_iff,
  true, ltb, leb, ◌&&◌, if◌then◌else◌, Option-cases,
}
use parkirpintar.Common.Time.{Time, hour}
use parkirpintar.Table.{select, select-cons}
use parkirpintar.World.{Entry, World, now, new_uuid, call}
use parkirpintar.Shared.Lock.{redis_get, redis_set}
use parkirpintar.Shared.Idempotency.{check}
use parkirpintar.Shared.Held.{IsHeld, held_by, entry_key, save-IsHeld}
use parkirpintar.Reservation.Usecase.{spot_lock_key}
use parkirpintar.Reservation.Keys.{first_code, first_code-spot_lock_key}
use parkirpintar.Gateway.Confirmation.{
  ConfirmRequest, transaction_status, pay_booking_fee, confirm_pending, spot_id_of, redis_expire,
  extend_lock, hold_spot, confirm_paid, confirm_booking_payment,
}
use parkirpintar.Billing.Usecase
use parkirpintar.Billing.Repository
use parkirpintar.Payment.Usecase.{
  WebhookPayload, webhook_entry, answer_duplicate, apply_webhook, handle_payload, create_fresh,
  create_transaction,
}
use parkirpintar.Payment.Domain.{CustomerInfo}
use parkirpintar.Payment.Gateway.{Gateway}
use parkirpintar.Payment.Repository as Transactions
use parkirpintar.Payment.Charges.{create_codes-keeps}
use text.Mathlib.TextLemmas.{cons-append}

idempotency-ne-spot_lock_key : (s k : String) → "idempotency:" ⧺ k ≢ spot_lock_key s
idempotency-ne-spot_lock_key s k h = omega (
  arith,
  ap first_code h,
  first_code-spot_lock_key s,
  ap first_code (cons-append "i" "dempotency:" k),
)

webhook_entry-ne-spot_lock_key :
    (s : String) (p : WebhookPayload) → webhook_entry p ≢ spot_lock_key s
unfolding webhook_entry
webhook_entry-ne-spot_lock_key s p h = omega (
  arith,
  ap first_code h,
  first_code-spot_lock_key s,
  ap first_code (cons-append "w" "ebhook:" (p.order_id ⧺ ":" ⧺ p.transaction_status)),
)

held_by-expire :
    (id v : String) (until t end : Time) (o : Option Entry)
    → held_by id until o ≡ true
    → (elim o [ none ↦ none | some e ↦ if ltb t e.expires then some e.value else none ]) ≡ some v
    → until ≤ end
    → (v == id && leb until end) ≡ true
held_by-expire id v until t end none h live long = cc
held_by-expire id v until t end (some e) h live long =
    ground (arith, eq_iff e.value id, eq_iff v id)

-- A key that is extended beyond the instant stays held until it.
redis_expire-IsHeld :
    (k id j : String) (until t end : Time) (es : List Entry)
    → IsHeld k id until es
    → until ≤ end
    → IsHeld k id until (redis_expire j t end es)
unfolding redis_expire redis_get redis_set
redis_expire-IsHeld k id j until t end es h long = elim (Option-cases (redis_get j t es)) [
  | inl gone ↦ ground (arith, gone)
  | inr (v, live) ↦ ground (
    arith,
    live,
    select-cons entry_key k (record { key = j; value = v; expires = end }) es,
    eq_iff j k,
    held_by-expire id v until t end (select entry_key k es),
  )
]

module _ (id : String) (until : Time) (s : String) where
  abbrev Held : World → Type 0
  Held w = IsHeld (spot_lock_key s) id until w.redis

  pub confirm_booking_payment-Held :
      (user : Option String) (body : Option ConfirmRequest) (w : World)
      → Held w
      → until ≤ w.env.clock (w.ticks + 1 + 1 + 1 + 1 + 1) + hour
      → Held (confirm_booking_payment user body w).1
  unfolding confirm_booking_payment transaction_status confirm_paid pay_booking_fee confirm_pending
      hold_spot spot_id_of extend_lock now call
  confirm_booking_payment-Held user body w h long = grind (arith, redis_expire-IsHeld)

  pub generate_invoice-Held :
      (session reservation driver key : String) (check_in check_out : Time) (w : World)
      → Held w
      → Held (Usecase.generate_invoice session reservation driver key check_in check_out w).1
  unfolding Usecase.generate_invoice Usecase.generate_fresh Usecase.idempotency_entry
      Repository.insert_invoice Repository.get_by_idempotency_key check now new_uuid call
  generate_invoice-Held session reservation driver key check_in check_out w h =
      grind (arith, save-IsHeld, idempotency-ne-spot_lock_key)

  pub create_transaction-Held :
      (gw : Gateway) (invoice driver key m : String) (amount : ℕ) (customer : CustomerInfo)
      (w : World)
      → Held w
      → Held (create_transaction gw invoice driver key m amount customer w).1
  unfolding create_transaction create_fresh Transactions.insert_transaction
      Transactions.get_by_idempotency_key check now new_uuid call
  create_transaction-Held gw invoice driver key m amount customer w h =
      grind (arith, save-IsHeld, idempotency-ne-spot_lock_key, create_codes-keeps)

  pub handle_payload-Held :
      (gw : Gateway) (server_key : String) (p : WebhookPayload) (w : World)
      → Held w
      → Held (handle_payload gw server_key p w).1
  unfolding handle_payload answer_duplicate apply_webhook Transactions.get_by_gateway_tx_id
      Transactions.update_status check now call
  handle_payload-Held gw server_key p w h =
      grind (arith, save-IsHeld, webhook_entry-ne-spot_lock_key)
