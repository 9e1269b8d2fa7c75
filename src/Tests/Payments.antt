-- ===== src/Tests/Payments.antt =====
-- A payment that is created, refused, and settled by a webhook that comes twice.
use parkirpintar.Common.{◌≡◌, refl, ◌+◌, ◌*◌, [], ◌∷◌, true, false, none, some, String, ◌⧺◌, ◌==◌}
use parkirpintar.Common.Time.{hour, minute}
use parkirpintar.Table.{find, select, update}
use parkirpintar.World.{World, ok, err, now, new_uuid, call}
use parkirpintar.Shared.Lock.{redis_get, redis_set}
use parkirpintar.Shared.Idempotency.{check, save}
use parkirpintar.Payment.Domain.{Transaction, CustomerInfo, pending, settled}
use parkirpintar.Payment.Gateway.{Gateway, mock, mock_qris, webhook_signature, first_eight}
use parkirpintar.Payment.Repository.{
  transaction_key, is_taken, insert_transaction, get_by_gateway_tx_id, set_status, update_status,
}
use parkirpintar.Payment.Usecase.{
  is_qris, is_va, qris_codes, va_codes, create_codes, new_transaction, create_fresh, WebhookPayload,
  WebhookResult, map_midtrans_status, webhook_entry, answer_duplicate, apply_webhook,
  handle_payload, handle_webhook,
}
use parkirpintar.Payment.Charges.{OnlyTransactions}
use parkirpintar.Payment.Webhooks.{paid_of, handle_payload_fresh}
use parkirpintar.Tests.{ids, clock_at, start}
use mathlib.Core.Option

-- The mock gateway, with a text in place of the hash.
abbrev gate : Gateway
gate = mock (λ s. "hash of " ⧺ s)

abbrev alice : CustomerInfo
alice = record { name = "Alice"; email = "a@example.com"; phone = "1" }

abbrev charge : Transaction
charge = record {
  transaction_id = ids 0;
  invoice_id = "inv";
  driver_id = "alice";
  gateway_tx_id = "PP-id-00000";
  payment_method = "QRIS";
  status = pending;
  amount = 15000;
  payment_url = "https://pay.mock/qris/PP-id-00000";
  qr_string = "mock-qr-xxid-000";
  va_number = "";
  va_bank = "";
  idempotency_key = "k";
  created_at = clock_at 1;
  paid_at = none;
  expired_at = some (clock_at 3 + 15 * minute);
}

abbrev charged : World
charged = record start {
  ticks = 6;
  transactions = record charge { created_at = clock_at 4 } ∷ [];
  redis = record { key = "idempotency:k"; value = ids 0; expires = clock_at 5 + 24 * hour } ∷ [];
}

create_test : create_fresh gate "inv" "alice" "k" "QRIS" 15000 alice start ≡ (ok charge, charged)
unfolding create_fresh create_codes is_qris is_va qris_codes va_codes new_transaction
    insert_transaction is_taken find now new_uuid call save redis_set mock_qris first_eight
create_test = refl

create_cash_test :
    create_fresh gate "inv" "alice" "k2" "CASH" 15000 alice start
    ≡ (err "unsupported payment method: CASH", record start { ticks = 2 })
unfolding create_fresh create_codes is_qris is_va now new_uuid
create_cash_test = refl

abbrev captured : String
captured = "capture"

abbrev challenged : String
challenged = "challenge"

abbrev report : WebhookPayload
report = record {
  order_id = "PP-id-00000";
  status_code = "200";
  gross_amount = "15000.00";
  signature_key = "hash of PP-id-0000020015000.00secret";
  transaction_status = "settlement";
  fraud_status = "accept";
}

abbrev answer : WebhookResult
answer = record { processed = true; is_duplicate = false; tx_id = ids 0; new_status = some settled }

abbrev paid_up : World
paid_up = record charged {
  ticks = 11;
  transactions =
      record charge { created_at = clock_at 4; status = settled; paid_at = some (clock_at 8) } ∷ [];
  redis =
      record {
        key = "webhook:PP-id-00000:settlement";
        value = ids 0;
        expires = clock_at 10 + 24 * hour;
      }
      ∷ charged.redis;
}

webhook_test : handle_payload gate "secret" report charged ≡ (ok answer, paid_up)
unfolding handle_payload webhook_signature check webhook_entry redis_get select find apply_webhook
    get_by_gateway_tx_id map_midtrans_status update_status update now call save redis_set
webhook_test = refl

handle_payload_fresh_example :
    let status = map_midtrans_status report.transaction_status report.fraud_status in
    (gate.verify_webhook_signature report.order_id report.status_code report.gross_amount "secret"
      ≡ report.signature_key)
    × (answer.new_status ≡ some status)
    × (Option.map transaction_key
          (find (λ t. t.gateway_tx_id == report.order_id) charged.transactions)
        ≡ some answer.tx_id)
    × (paid_up.transactions
        ≡ update transaction_key answer.tx_id
            (set_status status (paid_of status (charged.env.clock (charged.ticks + 1 + 1))))
            charged.transactions)
    × OnlyTransactions charged paid_up
handle_payload_fresh_example =
    handle_payload_fresh gate "secret" report charged paid_up answer webhook_test refl

abbrev answer_again : WebhookResult
answer_again = record {
  processed = true;
  is_duplicate = true;
  tx_id = ids 0;
  new_status = some settled;
}

webhook_again_test :
    handle_payload gate "secret" report paid_up ≡ (ok answer_again, record paid_up { ticks = 13 })
unfolding handle_payload webhook_signature check webhook_entry redis_get select find
    answer_duplicate get_by_gateway_tx_id call
webhook_again_test = refl

apply_test : apply_webhook report charged ≡ (
  ok answer,
  record paid_up {
    ticks = 10;
    transactions =
        record charge { created_at = clock_at 4; status = settled; paid_at = some (clock_at 7) }
        ∷ [];
    redis =
        record {
          key = "webhook:PP-id-00000:settlement";
          value = ids 0;
          expires = clock_at 9 + 24 * hour;
        }
        ∷ charged.redis;
  },
)
unfolding webhook_entry find apply_webhook get_by_gateway_tx_id map_midtrans_status update_status
    update now call save redis_set
apply_test = refl

abbrev applied : World
applied = record paid_up {
  ticks = 10;
  transactions =
      record charge { created_at = clock_at 4; status = settled; paid_at = some (clock_at 7) } ∷ [];
  redis =
      record {
        key = "webhook:PP-id-00000:settlement";
        value = ids 0;
        expires = clock_at 9 + 24 * hour;
      }
      ∷ charged.redis;
}

-- A webhook that is signed with another key.
forged_test :
    handle_webhook gate "other" (λ _. ok report) "" charged ≡ (err "invalid signature", charged)
unfolding handle_webhook handle_payload webhook_signature
forged_test = refl
