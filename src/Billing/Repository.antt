-- ===== src/Billing/Repository.antt =====
-- services/billing/internal/repository/repository.go. A NULL text column is the empty text of
-- scanInvoice; ids and idempotency keys are unique (migrations/).
use parkirpintar.Common.{
  Bool, true, false, ◌||◌, ◌∷◌, List, Option, none, some, String, ◌⧺◌, ◌==◌, if◌then◌else◌,
}
use parkirpintar.Common.Time.{Time}
use parkirpintar.Common.Grpc.{contains}
use parkirpintar.Table.{find, select, update}
use parkirpintar.World.{M, gets, or_fail, ◌>>=◌, ◌>>◌, guard, modify, map_err, call}
use parkirpintar.Billing.Domain.{Invoice, paid}

abbrev pub invoice_key : Invoice → String
invoice_key i = i.invoice_id

-- Whether the primary key or the unique idempotency key is taken.
unfoldable pub is_taken : Invoice → List Invoice → Bool
is_taken inv rows =
    elim (find (λ o. o.invoice_id == inv.invoice_id || o.idempotency_key == inv.idempotency_key)
      rows) [ none ↦ false | some _ ↦ true ]

-- The error of a failed insertion.
unfoldable pub insert_error : String → String
insert_error e =
    if contains e "duplicate key" || contains e "23505"
    then "request already processed"
    else "insert invoice: " ⧺ e

-- The row's created_at is the database's own reading of the clock.
unfoldable pub insert_invoice : Invoice → M String (Unit {0})
insert_invoice inv = map_err insert_error do
  at ← call
  taken ← gets (λ w. is_taken inv w.invoices)
  guard (if taken then false else true) "duplicate key value violates unique constraint"
  modify (λ w. record w { invoices = record inv { created_at = at } ∷ w.invoices })

-- scanInvoice, of the row that a query finds.
abbrev scan_error : Option Invoice → M String Invoice
scan_error found = or_fail found "invoice not found"

abbrev scan_failed : String → String
scan_failed e = "scan invoice: " ⧺ e

unfoldable pub get_invoice : String → M String Invoice
get_invoice id = do
  _ ← map_err scan_failed call
  scan_error (← gets (λ w. select invoice_key id w.invoices))

-- session_id = …, where an invoice without a session has NULL, which equals nothing.
unfoldable pub has_session : String → Invoice → Bool
has_session session i = if i.session_id == "" then false else i.session_id == session

unfoldable pub get_invoice_by_session : String → M String Invoice
get_invoice_by_session session = do
  _ ← map_err scan_failed call
  scan_error (← gets (λ w. find (has_session session) w.invoices))

unfoldable pub get_by_idempotency_key : String → M String Invoice
get_by_idempotency_key key = do
  _ ← map_err scan_failed call
  scan_error (← gets (λ w. find (λ i. i.idempotency_key == key) w.invoices))

abbrev pub pay : String → String → Time → Invoice → Invoice
pay gateway_tx_id method at i = record i {
  status = paid;
  gateway_tx_id = gateway_tx_id;
  payment_method = method;
  paid_at = some at;
}

unfoldable pub mark_paid : String → String → String → Time → M String (Unit {0})
mark_paid id gateway_tx_id method at = do
  _ ← call
  modify
      (λ w. record w { invoices = update invoice_key id (pay gateway_tx_id method at) w.invoices })
