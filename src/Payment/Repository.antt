-- ===== src/Payment/Repository.antt =====
-- services/payment/internal/repository/repository.go. The id, the gateway's order id and the
-- idempotency key are unique (migrations/).
use parkirpintar.Common.{
  Bool, true, false, ◌||◌, List, [], ◌∷◌, Option, none, some, String, ◌⧺◌, ◌==◌, ltb, if◌then◌else◌,
}
use parkirpintar.Common.Time.{Time}
use parkirpintar.Table.{find, select, update}
use parkirpintar.World.{M, gets, or_fail, ◌>>=◌, ◌>>◌, guard, modify, map_err, call}
use parkirpintar.Payment.Domain.{Transaction, TransactionStatus}

abbrev pub transaction_key : Transaction → String
transaction_key t = t.transaction_id

unfoldable pub is_taken : Transaction → List Transaction → Bool
is_taken tx rows =
    elim (find
      (λ t.
        t.transaction_id == tx.transaction_id
        || t.gateway_tx_id == tx.gateway_tx_id
        || t.idempotency_key == tx.idempotency_key)
      rows) [ none ↦ false | some _ ↦ true ]

-- The row's created_at is the database's own reading of the clock, and it is not paid.
unfoldable pub insert_transaction : Transaction → M String (Unit {0})
insert_transaction tx = do
  at ← call
  taken ← gets (λ w. is_taken tx w.transactions)
  guard (if taken then false else true) "duplicate key value violates unique constraint"
  modify (λ w. record w {
    transactions = record tx { created_at = at; paid_at = none } ∷ w.transactions;
  })

-- scanTransaction, of the row that a query finds.
abbrev scan_error : Option Transaction → M String Transaction
scan_error found = or_fail found "transaction not found"

abbrev scan_failed : String → String
scan_failed e = "scan transaction: " ⧺ e

unfoldable pub get_transaction : String → M String Transaction
get_transaction id = do
  _ ← map_err scan_failed call
  scan_error (← gets (λ w. select transaction_key id w.transactions))

unfoldable pub get_by_gateway_tx_id : String → M String Transaction
get_by_gateway_tx_id order = do
  _ ← map_err scan_failed call
  scan_error (← gets (λ w. find (λ t. t.gateway_tx_id == order) w.transactions))

unfoldable pub get_by_idempotency_key : String → M String Transaction
get_by_idempotency_key key = do
  _ ← map_err scan_failed call
  scan_error (← gets (λ w. find (λ t. t.idempotency_key == key) w.transactions))

abbrev pub set_status : TransactionStatus → Option Time → Transaction → Transaction
set_status status paid_at t = record t { status = status; paid_at = paid_at }

unfoldable pub update_status : String → TransactionStatus → Option Time → M String (Unit {0})
update_status id status paid_at = do
  _ ← call
  modify (λ w. record w {
    transactions = update transaction_key id (set_status status paid_at) w.transactions;
  })

-- ORDER BY created_at DESC
unfoldable pub insert_newest : Transaction → List Transaction → List Transaction
insert_newest t [] = t ∷ []
insert_newest t (u ∷ us) =
    let rest = insert_newest t us in if ltb t.created_at u.created_at then u ∷ rest else t ∷ u ∷ us

unfoldable pub transactions_of : String → List Transaction → List Transaction
unfolding insert_newest
transactions_of id [] = []
transactions_of id (t ∷ ts) =
    let rest = transactions_of id ts in if t.invoice_id == id then insert_newest t rest else rest

unfoldable pub list_by_invoice : String → M String (List Transaction)
list_by_invoice id = do _ ← call; gets (λ w. transactions_of id w.transactions)
