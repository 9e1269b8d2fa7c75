-- ===== src/Payment/Midtrans.antt =====
-- services/payment/internal/gateway/midtrans.go. The client's ChargeTransaction is a parameter: it
-- gives a response or nil, and the message of an error or none. A dereference of nil ends the
-- process, which is an outcome of its own.
use parkirpintar.Common.{
  ℕ, ◌≡◌, ◌≢◌, ◌↔◌, ◌+◌, ◌*◌, ◌&&◌, List, [], ◌∷◌, Option, none, some, String, ◌⧺◌, ◌==◌, arith,
  if◌then◌else◌,
}
use parkirpintar.Common.Time.{Time, minute, hour}
use parkirpintar.World.{Env}
use parkirpintar.Payment.Domain.{CustomerInfo}

pub record Action : Type 0 where
  pub action_name : String
  pub url : String

pub record ChargeResponse : Type 0 where
  pub actions : List Action
  pub qr_string : String
  pub va_numbers : List String

-- The constants of the client that the source names.
pub data PaymentType : Type 0 where
  payment_type_gopay payment_type_bank_transfer : PaymentType

pub data Bank : Type 0 where
  bank_bca bank_bni bank_bri bank_mandiri : Bank

pub record ChargeRequest : Type 0 where
  pub payment_type : PaymentType
  pub order_id : String
  pub gross_amount : ℕ
  pub customer : CustomerInfo
  pub bank : Option Bank

pub record Client : Type 0 where
  pub charge_transaction : Env → ℕ → ChargeRequest → Option ChargeResponse × Option String

pub data Outcome (A : Type 0) : Type 0 where
  answers : A → Outcome A
  errors : String → Outcome A
  panics : Outcome A

-- The text of an error that has one.
abbrev message_of : Option String → Option String
message_of none = none
message_of (some e) = if e == "" then none else some e

-- The loop over the actions: the payment URL and the QR text so far.
unfoldable pub read_actions : List Action → String → String → String × String
read_actions [] url qr = (url, qr)
read_actions (a ∷ as') url qr =
    read_actions as' (if a.action_name == "generate-qr-code" then a.url else url)
      (if a.action_name == "deeplink-redirect" && qr == "" then a.url else qr)

abbrev first_url : List Action → String
first_url [] = ""
first_url (a ∷ _) = a.url

-- The QR text and the payment URL of a response.
unfoldable pub read_response : ChargeResponse → String × String
unfolding read_actions
read_response resp =
    let (url, qr) = read_actions resp.actions "" "" in
    (
      if resp.qr_string == "" then qr else resp.qr_string,
      if url == "" then first_url resp.actions else url,
    )

abbrev qris_outcome :
    Option ChargeResponse → Option String → Time → Outcome (String × String × Time)
qris_outcome resp (some e) t = errors ("midtrans charge QRIS: " ⧺ e)
qris_outcome none none t = errors "midtrans charge QRIS: empty response"
qris_outcome (some r) none t = let (qr, url) = read_response r in answers (qr, url, t + 15 * minute)

-- The number of requests made of the environment: the clock is read for an answer only.
abbrev after : {A : Type 0} → Outcome A → ℕ → ℕ
after (answers _) n = n + 1 + 1
after _ n = n + 1

unfoldable pub midtrans_qris :
    Client → String → ℕ → CustomerInfo → Env → ℕ → Outcome (String × String × Time) × ℕ
midtrans_qris client order amount customer env n =
    let (resp, error) = client.charge_transaction env n (record {
      payment_type = payment_type_gopay;
      order_id = order;
      gross_amount = amount;
      customer = customer;
      bank = none;
    }) in
    let outcome = qris_outcome resp (message_of error) (env.clock (n + 1)) in
    (outcome, after outcome n)

-- The switch on the bank.
unfoldable pub bank_code : String → Bank
bank_code bank =
    if bank == "BNI"
    then bank_bni
    else if bank == "BRI"
    then bank_bri
    else if bank == "MANDIRI"
    then bank_mandiri
    else bank_bca

abbrev first_number : List String → String
first_number [] = ""
first_number (v ∷ _) = v

-- The response is read without a test for nil.
abbrev va_outcome : Option ChargeResponse → Option String → Time → Outcome (String × Time)
va_outcome resp (some e) t = errors ("midtrans charge VA: " ⧺ e)
va_outcome none none t = panics
va_outcome (some r) none t = answers (first_number r.va_numbers, t + 24 * hour)

abbrev va_request : String → String → ℕ → CustomerInfo → ChargeRequest
va_request order bank amount customer = record {
  payment_type = payment_type_bank_transfer;
  order_id = order;
  gross_amount = amount;
  customer = customer;
  bank = some (bank_code bank);
}

unfoldable pub midtrans_va :
    Client → String → String → ℕ → CustomerInfo → Env → ℕ → Outcome (String × Time) × ℕ
midtrans_va client order bank amount customer env n =
    let (resp, error) = client.charge_transaction env n (va_request order bank amount customer) in
    let outcome = va_outcome resp (message_of error) (env.clock (n + 1)) in
    (outcome, after outcome n)

-- A QRIS charge never ends the process; a charge of a virtual account does exactly if the client
-- gives neither a response nor the message of an error.
pub midtrans_va-panics_iff :
    (client : Client) (order bank : String) (amount : ℕ) (customer : CustomerInfo) (env : Env)
    (n : ℕ)
    → ((midtrans_qris client order amount customer env n).0 ≢ panics)
      × (((midtrans_va client order bank amount customer env n).0 ≡ panics) ↔ (
          let (resp, error) =
            client.charge_transaction env n (va_request order bank amount customer) in
          (resp ≡ none) × (message_of error ≡ none)))
unfolding midtrans_qris midtrans_va
midtrans_va-panics_iff client order bank amount customer env n = ground arith
