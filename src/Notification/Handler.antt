-- ===== src/Notification/Handler.antt =====
-- services/notification/internal/handler/handler.go. The data of a request is a lookup, whose missing
-- keys are empty texts. The providers of domain.go are parameters: an answer from the environment;
-- those of provider/stub.go never fail.
use parkirpintar.Common.{
  ℕ, ◌+◌, ◌-◌, Bool, true, false, List, [], ◌∷◌, map, Option, none, some, String, ◌⧺◌, ◌==◌,
  if◌then◌else◌, ◌++◌,
}
use parkirpintar.Common.Int.{ℤ}
use parkirpintar.Config.{decimal_ℤ}
use parkirpintar.Common.Time.{Time}
use parkirpintar.Common.Grpc.{
  Failure, status_error, nil_dereference, invalid_argument, internal, unavailable,
}
use parkirpintar.World.{
  Env, Result, fail, ok, err, M, pure, ◌>>=◌, ◌>>◌, guard, map_err, quiet, attempt, now, new_uuid,
  next_tick,
}
use parkirpintar.Notification.Domain.{NotificationLog}
use parkirpintar.Notification.Repository.{insert_notice, get_by_driver_id}

-- The enums of gen/notification/v1. They are open: a request may have any other number.
pub data Channel : Type 0 where
  channel_unspecified channel_push channel_email channel_both : Channel
  channel_number : ℤ → Channel

pub data Template : Type 0 where
  template_unspecified reservation_confirmed reservation_expiring reservation_expired : Template
  reservation_cancelled check_in_success check_out_success wrong_spot_penalty : Template
  payment_success payment_failed invoice_generated : Template
  template_number : ℤ → Template

pub data SendStatus : Type 0 where
  send_unspecified sent failed : SendStatus

-- The String methods of the enums: an unknown number is shown as such.
unfoldable pub channel_text : Channel → String
unfolding decimal_ℤ
channel_text (channel_number n) = decimal_ℤ n
channel_text channel_unspecified = "NOTIFICATION_CHANNEL_UNSPECIFIED"
channel_text channel_push = "NOTIFICATION_CHANNEL_PUSH"
channel_text channel_email = "NOTIFICATION_CHANNEL_EMAIL"
channel_text channel_both = "NOTIFICATION_CHANNEL_BOTH"

unfoldable pub template_text : Template → String
unfolding decimal_ℤ
template_text (template_number n) = decimal_ℤ n
template_text template_unspecified = "TEMPLATE_ID_UNSPECIFIED"
template_text reservation_confirmed = "TEMPLATE_ID_RESERVATION_CONFIRMED"
template_text reservation_expiring = "TEMPLATE_ID_RESERVATION_EXPIRING"
template_text reservation_expired = "TEMPLATE_ID_RESERVATION_EXPIRED"
template_text reservation_cancelled = "TEMPLATE_ID_RESERVATION_CANCELLED"
template_text check_in_success = "TEMPLATE_ID_CHECK_IN_SUCCESS"
template_text check_out_success = "TEMPLATE_ID_CHECK_OUT_SUCCESS"
template_text wrong_spot_penalty = "TEMPLATE_ID_WRONG_SPOT_PENALTY"
template_text payment_success = "TEMPLATE_ID_PAYMENT_SUCCESS"
template_text payment_failed = "TEMPLATE_ID_PAYMENT_FAILED"
template_text invoice_generated = "TEMPLATE_ID_INVOICE_GENERATED"

unfoldable pub channel_from_string : String → Channel
channel_from_string s =
    if s == "NOTIFICATION_CHANNEL_PUSH"
    then channel_push
    else if s == "NOTIFICATION_CHANNEL_EMAIL"
    then channel_email
    else if s == "NOTIFICATION_CHANNEL_BOTH"
    then channel_both
    else channel_unspecified

unfoldable pub template_from_string : String → Template
template_from_string s =
    if s == "TEMPLATE_ID_RESERVATION_CONFIRMED"
    then reservation_confirmed
    else if s == "TEMPLATE_ID_RESERVATION_EXPIRING"
    then reservation_expiring
    else if s == "TEMPLATE_ID_RESERVATION_EXPIRED"
    then reservation_expired
    else if s == "TEMPLATE_ID_RESERVATION_CANCELLED"
    then reservation_cancelled
    else if s == "TEMPLATE_ID_CHECK_IN_SUCCESS"
    then check_in_success
    else if s == "TEMPLATE_ID_CHECK_OUT_SUCCESS"
    then check_out_success
    else if s == "TEMPLATE_ID_WRONG_SPOT_PENALTY"
    then wrong_spot_penalty
    else if s == "TEMPLATE_ID_PAYMENT_SUCCESS"
    then payment_success
    else if s == "TEMPLATE_ID_PAYMENT_FAILED"
    then payment_failed
    else if s == "TEMPLATE_ID_INVOICE_GENERATED"
    then invoice_generated
    else template_unspecified

unfoldable pub status_from_string : String → SendStatus
status_from_string s =
    if s == "sent" then sent else if s == "failed" then failed else send_unspecified

abbrev pub Data : Type 0
Data = String → String

-- The title and the body.
unfoldable pub template_content : Template → Data → String × String
template_content reservation_confirmed values = (
  "Reservasi Dikonfirmasi",
  "Spot " ⧺ values "spot" ⧺ " lantai " ⧺ values "floor" ⧺ " telah dikonfirmasi. Berlaku 1 jam.",
)
template_content reservation_expired values =
    ("Reservasi Kedaluwarsa", "Reservasi Anda telah kedaluwarsa karena tidak check-in dalam 1 jam.")
template_content reservation_cancelled values =
    ("Reservasi Dibatalkan", "Reservasi dibatalkan. Biaya: Rp " ⧺ values "fee")
template_content check_in_success values = ("Check-in Berhasil", "Sesi parkir Anda telah dimulai.")
template_content check_out_success values =
    ("Check-out Berhasil", "Sesi parkir selesai. Total: Rp " ⧺ values "total")
template_content payment_success values =
    ("Pembayaran Berhasil", "Pembayaran Rp " ⧺ values "amount" ⧺ " berhasil. Terima kasih!")
template_content payment_failed values =
    ("Pembayaran Gagal", "Pembayaran gagal. Silakan coba lagi.")
template_content invoice_generated values =
    ("Invoice Tersedia", "Invoice Rp " ⧺ values "total" ⧺ " siap dibayar.")
template_content _ values = ("Notifikasi ParkirPintar", values "message")

-- What a provider answers to the driver, the title and the body: `none`, or the text of an error.
pub record Providers : Type 0 where
  pub push : Env → ℕ → String → String → String → Option String
  pub email : Env → ℕ → String → String → String → Option String

abbrev pub stubs : Providers
stubs = record { push = λ env n driver title body. none; email = λ env n driver title body. none }

abbrev pub Send : Type 0
Send = Env → ℕ → String → String → String → Option String

unfoldable pub send_by : Send → String → String → String → M String (Option String)
send_by send driver title body w = (ok (send w.env w.ticks driver title body), next_tick w)

-- The switch on the channel: the error, if there is one. A failed push on both is only logged.
unfoldable pub dispatch : Providers → Channel → String → String → String → M String (Option String)
dispatch p channel_push driver title body = send_by p.push driver title body
dispatch p channel_email driver title body = send_by p.email driver title body
dispatch p channel_both driver title body = do
  _ ← send_by p.push driver title body
  send_by p.email driver title body
dispatch p channel_unspecified driver title body = pure none
dispatch p (channel_number _) driver title body = pure none

pub record SendRequest : Type 0 where
  pub driver_id : String
  pub channel : Channel
  pub template_id : Template
  pub values : Data

pub record SendResponse : Type 0 where
  pub success : Bool
  pub notification_id : String
  pub error_message : String

unfoldable pub log_entry :
    String → SendRequest → String × String → Option String → Time → NotificationLog
log_entry id req content error at = record {
  id = id;
  driver_id = req.driver_id;
  channel = channel_text req.channel;
  template_id = template_text req.template_id;
  title = content.0;
  body = content.1;
  status = elim error [ none ↦ "sent" | some _ ↦ "failed" ];
  error_message = elim error [ none ↦ "" | some e ↦ e ];
  sent_at = at;
}

abbrev pub send_response : String → Option String → SendResponse
send_response id none = record { success = true; notification_id = id; error_message = "" }
send_response id (some e) = record { success = false; notification_id = id; error_message = e }

-- The handler's repository: one over the database, none, or the nil pointer that cmd/main.go gives
-- where the database cannot be set up, which is not nil as an interface.
pub data Repository : Type 0 where
  stores no_repository nil_pointer : Repository

-- if h.repo != nil { h.repo.Insert … }: an error is only logged.
unfoldable pub persist : Repository → NotificationLog → M Failure (Unit {0})
persist stores l = quiet (insert_notice l)
persist no_repository l = pure tt
persist nil_pointer l = fail nil_dereference

-- It answers without an error, or panics.
unfoldable pub send_notification : Repository → Providers → SendRequest → M Failure SendResponse
unfolding persist
send_notification repo p req = do
  id ← new_uuid
  let content = template_content req.template_id req.values
  error ← map_err (status_error internal) (dispatch p req.channel req.driver_id content.0 content.1)
  at ← now
  persist repo (log_entry id req content error at)
  pure (send_response id error)

-- The driver, if the call ended in an error; a panic ends the whole.
abbrev failed_driver : String → Result Failure SendResponse → M Failure (List String)
failed_driver d (ok _) = pure []
failed_driver d (err (status_error _ _)) = pure (d ∷ [])
failed_driver d (err nil_dereference) = fail nil_dereference

-- The drivers whose call ended in an error.
unfoldable pub send_all :
    Repository → Providers → Channel → Template → Data → List String → M Failure (List String)
send_all repo p channel template values [] = pure []
send_all repo p channel template values (d ∷ ds) = do
  outcome ← attempt (
      send_notification repo p
        (record { driver_id = d; channel = channel; template_id = template; values = values }))
  here ← failed_driver d outcome
  rest ← send_all repo p channel template values ds
  pure (here ++ rest)

unfoldable pub count_drivers : List String → ℕ
count_drivers [] = 0
count_drivers (_ ∷ ds) = count_drivers ds + 1

pub record BroadcastResponse : Type 0 where
  pub total_sent : ℕ
  pub total_failed : ℕ
  pub failed_driver_ids : List String

unfoldable pub broadcast_notification :
    Repository → Providers → Channel → Template → Data → List String → M Failure BroadcastResponse
broadcast_notification repo p channel template values drivers = do
  failures ← send_all repo p channel template values drivers
  pure (record {
    total_sent = count_drivers drivers - count_drivers failures;
    total_failed = count_drivers failures;
    failed_driver_ids = failures;
  })

pub record NotificationRecord : Type 0 where
  pub notification_id : String
  pub driver_id : String
  pub channel : Channel
  pub template_id : Template
  pub status : SendStatus
  pub error_message : String
  pub sent_at : Time

unfoldable pub record_of : NotificationLog → NotificationRecord
unfolding channel_from_string template_from_string status_from_string
record_of l = record {
  notification_id = l.id;
  driver_id = l.driver_id;
  channel = channel_from_string l.channel;
  template_id = template_from_string l.template_id;
  status = status_from_string l.status;
  error_message = l.error_message;
  sent_at = l.sent_at;
}

-- The query, by the repository there is.
unfoldable pub query_history : Repository → String → ℕ → ℕ → M Failure (List NotificationLog × ℕ)
query_history stores driver limit offset =
    map_err (λ e. status_error internal ("query history: " ⧺ e))
      (get_by_driver_id driver limit offset)
query_history no_repository driver limit offset =
    fail (status_error unavailable "notification history not available")
query_history nil_pointer driver limit offset = fail nil_dereference

unfoldable pub get_notification_history :
    Repository → String → ℕ → ℕ → M Failure (List NotificationRecord × ℕ)
unfolding query_history
get_notification_history repo driver limit offset = do
  guard (if driver == "" then false else true)
      (status_error invalid_argument "driver_id is required")
  (logs, total) ← query_history repo driver limit offset
  pure (map record_of logs, total)
