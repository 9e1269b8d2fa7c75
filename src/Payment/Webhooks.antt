-- ===== src/Payment/Webhooks.antt =====
-- What HandleWebhook of services/payment/internal/usecase/usecase.go accepts, writes and answers.
use parkirpintar.Common.{
  ◌≡◌, ◌≢◌, refl, ◌+◌, ◌<◌, ◌↔◌, ◌⊎◌, Bool, true, false, Option, none, some, ℕ, String, ◌==◌, arith,
  eq_iff, eq_refl,
}
use parkirpintar.Common.Time.{Time}
use parkirpintar.Table.{find, select, update}
use mathlib.Core.Option
use parkirpintar.World.{World, Result, ok, err, now, call}
use parkirpintar.Shared.Lock.{redis_get, redis_set}
use parkirpintar.Shared.Idempotency.{check, save, default_ttl}
use parkirpintar.Payment.Domain.{TransactionStatus, settled}
use parkirpintar.Payment.Gateway.{Gateway}
use parkirpintar.Payment.Repository.{
  transaction_key, get_by_gateway_tx_id, set_status, update_status,
}
use parkirpintar.Payment.Usecase.{
  WebhookPayload, WebhookResult, map_midtrans_status, webhook_entry, answer_duplicate,
  apply_webhook, handle_payload, handle_webhook,
}
use parkirpintar.Payment.Charges.{OnlyTransactions}

-- The gateway's report means that the money has arrived exactly for a settlement, or for a capture
-- that the fraud check accepts.
pub map_midtrans_status_settled_iff :
    (tx fraud : String)
    → (map_midtrans_status tx fraud ≡ settled)
      ↔ ((tx ≡ "settlement") ⊎ ((tx ≡ "capture") × (fraud ≡ "accept")))
unfolding map_midtrans_status
map_midtrans_status_settled_iff tx fraud =
    let other : tx ≡ "settlement" → (tx == "capture") ≡ false = λ e. rw e refl in
    ground (arith, other, eq_iff tx "settlement", eq_iff tx "capture", eq_iff fraud "accept")

-- The time of payment that goes with a status.
abbrev pub paid_of : TransactionStatus → Time → Option Time
paid_of settled at = some at
paid_of _ at = none

-- A new webhook that is answered without an error was signed with the server key, and gives the
-- one transaction of its order the status that its text means: paid at that time for a settled
-- one, and with no time of payment for any other status, whatever it had before.
pub handle_payload_fresh :
    (gw : Gateway) (server_key : String) (p : WebhookPayload) (w w' : World) (r : WebhookResult)
    → handle_payload gw server_key p w ≡ (ok r, w')
    → r.is_duplicate ≡ false
    → let status = map_midtrans_status p.transaction_status p.fraud_status in
      (gw.verify_webhook_signature p.order_id p.status_code p.gross_amount server_key
        ≡ p.signature_key)
      × (r.new_status ≡ some status)
      × (Option.map transaction_key (find (λ t. t.gateway_tx_id == p.order_id) w.transactions)
          ≡ some r.tx_id)
      × (w'.transactions
          ≡ update transaction_key r.tx_id
              (set_status status (paid_of status (w.env.clock (w.ticks + 1 + 1))))
              w.transactions)
      × OnlyTransactions w w'
unfolding handle_payload check answer_duplicate apply_webhook get_by_gateway_tx_id update_status now
    call save
handle_payload_fresh gw server_key p w w' r h new = ground (
  arith,
  eq_iff (gw.verify_webhook_signature p.order_id p.status_code p.gross_amount server_key)
      p.signature_key,
)

-- A webhook that is answered as a duplicate was signed with the server key too, was answered before
-- as its key in Redis shows, and changes no table and no key.
pub handle_payload_duplicate :
    (gw : Gateway) (server_key : String) (p : WebhookPayload) (w w' : World) (r : WebhookResult)
    → handle_payload gw server_key p w ≡ (ok r, w')
    → r.is_duplicate ≡ true
    → (gw.verify_webhook_signature p.order_id p.status_code p.gross_amount server_key
        ≡ p.signature_key)
      × (redis_get (webhook_entry p) (w.env.clock w.ticks) w.redis ≢ none)
      × (w'.transactions ≡ w.transactions)
      × (w'.redis ≡ w.redis)
      × OnlyTransactions w w'
unfolding handle_payload check answer_duplicate apply_webhook get_by_gateway_tx_id update_status now
    call save
handle_payload_duplicate gw server_key p w w' r h old = ground (
  arith,
  eq_iff (gw.verify_webhook_signature p.order_id p.status_code p.gross_amount server_key)
      p.signature_key,
)

-- Whether an answer is a duplicate's.
abbrev pub answered_before : Result String WebhookResult → Bool
answered_before (ok r) = r.is_duplicate
answered_before (err _) = false

-- The same report of an order, delivered again within 24 hours of the first one's being saved (the
-- last request that the first one made), is answered as a duplicate and changes no transaction,
-- whatever happened to the tables since, as long as Redis keeps the key.
pub handle_payload_again :
    (gw : Gateway) (server_key : String) (p : WebhookPayload) (w w' v : World) (r : WebhookResult)
    (n : ℕ)
    → apply_webhook p w ≡ (ok r, w')
    → w'.ticks ≡ n + 1
    → w.env.fault n ≡ none
    → v.redis ≡ w'.redis
    → gw.verify_webhook_signature p.order_id p.status_code p.gross_amount server_key
      ≡ p.signature_key
    → v.env.clock v.ticks < w.env.clock n + default_ttl
    → v.env.fault v.ticks ≡ none
    → let (answer, v') = handle_payload gw server_key p v in
      (answered_before answer ≡ true) × (v'.transactions ≡ v.transactions)
unfolding handle_payload check answer_duplicate apply_webhook get_by_gateway_tx_id update_status now
    call save redis_set redis_get select find
handle_payload_again gw server_key p w w' v r n h last saved keys signed soon up = ground (
  arith,
  eq_iff (gw.verify_webhook_signature p.order_id p.status_code p.gross_amount server_key)
      p.signature_key,
  eq_refl (webhook_entry p),
)

-- A webhook that is answered with an error changes no table and no key.
pub handle_webhook_failure :
    (gw : Gateway) (server_key : String) (unmarshal : String → Result String WebhookPayload)
    (payload : String) (w w' : World) (e : String)
    → handle_webhook gw server_key unmarshal payload w ≡ (err e, w')
    → (w'.transactions ≡ w.transactions) × (w'.redis ≡ w.redis) × OnlyTransactions w w'
unfolding handle_webhook handle_payload check answer_duplicate apply_webhook get_by_gateway_tx_id
    update_status now call save
handle_webhook_failure gw server_key unmarshal payload w w' e h = ground arith
