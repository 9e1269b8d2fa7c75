-- ===== src/Tests/Drivers.antt =====
-- What a driver meets: an account, a token, a refused payment, and a notification.
use Prim.Native.String.{len}
use parkirpintar.Common.{
  ◌≡◌, refl, ◌+◌, ◌-◌, ◌↔◌, [], ◌∷◌, Option, none, some, inl, true, String, ◌==◌, eq_iff, arith,
}
use parkirpintar.Common.Grpc.{Failure, status_error, failed_precondition, is_prefix}
use parkirpintar.Table.{select, find}
use parkirpintar.World.{World, M, ok, err, pure, now, new_uuid, call}
use parkirpintar.Shared.Lock.{redis_get}
use parkirpintar.Shared.Idempotency.{check}
use parkirpintar.Reservation.Domain.{Row, cancelled}
use parkirpintar.Reservation.Repository.{row_id, row_of}
use parkirpintar.Billing.Repository.{is_taken}
use parkirpintar.Payment.Gateway.{Gateway, webhook_signature, first_eight}
use parkirpintar.Payment.Usecase.{
  is_qris, create_codes, qris_codes, create_fresh, create_transaction,
}
use parkirpintar.Payment.Handler.{handle_create, proto_to_payment_method}
use parkirpintar.Gateway.Client.{rpc}
use parkirpintar.Gateway.Confirmation.{
  invoice_id_of, insert_booking_row, insert_booking_fee, create_booking_fee_invoice,
}
use parkirpintar.Gateway.Handler.{pay_booking, charge_booking}
use parkirpintar.Gateway.Booking.{charge_booking_failure}
use parkirpintar.Accounts.Http.{HttpError}
use parkirpintar.Accounts.Token.{
  user_id_from_context, Claims, Jwt, parse_at, parse_token, valid_claims, key_of, trim_prefix,
  generate_token, is_public_path, header_user, http_middleware,
}
use parkirpintar.Accounts.Account.{
  Bcrypt, RegisterRequest, AuthResponse, contains_str, hash_password, insert_driver,
  register_driver, register, login,
}
use parkirpintar.Accounts.Sessions.{login-register}
use parkirpintar.Accounts.Searching.{StandsIn, contains_str-StandsIn}
use parkirpintar.Notification.Handler.{
  channel_both, payment_success, SendRequest, Providers, stores, persist, send_notification,
  dispatch, send_by, log_entry, channel_text, template_text, get_notification_history,
}
use parkirpintar.Notification.Repository.{insert_notice}
use parkirpintar.Notification.Delivery.{send_each, get_notification_history-empty}
use parkirpintar.Presence.Handler.{StreamRequest}
use parkirpintar.Tests.{noon, ids, clock_at, row1, start}
use parkirpintar.Tests.Bookings.{alice1, made}
use mathlib.Core.Option

-- A payment provider that is down.
abbrev down : Gateway
down = record {
  create_qris = λ order amount customer env n. (err "down", n + 1);
  create_va = λ order bank amount customer env n. (err "down", n + 1);
  verify_webhook_signature = webhook_signature (λ s. s);
}

abbrev refusal : Failure
refusal =
    status_error failed_precondition
      "booking fee payment failed: rpc error: code = Internal desc = create QRIS: down"

abbrev uncharged : World
uncharged = (charge_booking down (ids 0) "alice" "k1" made).1

charge_test : charge_booking down (ids 0) "alice" "k1" made ≡ (err refusal, uncharged)
unfolding charge_booking create_booking_fee_invoice invoice_id_of insert_booking_fee
    insert_booking_row pay_booking rpc handle_create proto_to_payment_method create_transaction
    create_fresh create_codes qris_codes is_qris first_eight check redis_get is_taken select find
    now new_uuid call
charge_test = refl

charge_booking_failure_example :
    Option.map (λ (x : Row). x.status) (select row_id (ids 0) uncharged.reservations)
    ≡ some cancelled
unfolding select find
charge_booking_failure_example =
    charge_booking_failure down (ids 0) "alice" "k1" (row_of alice1) row1 refusal made uncharged
      (λ n. refl) refl refl refl (inl refl) charge_test

-- A library whose tokens are the user's id, and a hash that is the password.
abbrev claims_of : String → Claims
claims_of user = record {
  user_id = user;
  vehicle_type = "car";
  expires_at = clock_at 9;
  issued_at = clock_at 1;
}

abbrev pub open_jwt : Jwt
open_jwt = record {
  parse_with_claims = λ key_for token t. ok (some (claims_of token), true);
  signed_string = λ claims secret. ok claims.user_id;
}

abbrev pub plain : Bcrypt
plain = record {
  generate_from_password = λ n password. ok password;
  matches = λ hash password. hash == password;
}

abbrev greet : Option String → M HttpError String
greet none = pure "nobody"
greet (some user) = pure user

abbrev greeted : World
greeted = record start { ticks = 1 }

greet_test :
    http_middleware open_jwt "secret" "/v1/me" "Bearer alice" greet start ≡ (ok "alice", greeted)
unfolding user_id_from_context http_middleware header_user parse_token parse_at valid_claims key_of
    trim_prefix is_public_path is_prefix now
greet_test = refl

abbrev form : RegisterRequest
form = record { name = "Alice"; email = "a@x"; phone = "1"; password = "pw"; vehicle_type = "" }

abbrev welcome : AuthResponse
welcome = record {
  driver_id = ids 1;
  name = "Alice";
  email = "a@x";
  token = ids 1;
  vehicle_type = "car";
}

abbrev joined : World
joined = (register open_jwt plain "secret" 24 (some form) start).1

register_test : register open_jwt plain "secret" 24 (some form) start ≡ (ok welcome, joined)
unfolding register register_driver hash_password insert_driver generate_token select find now call
register_test = refl

login-register_example :
    (login open_jwt plain "secret" 24 (some (record { email = "a@x"; password = "pw" })) joined).0
    ≡ ok welcome
unfolding register register_driver hash_password insert_driver generate_token select find now call
login-register_example =
    login-register open_jwt plain "secret" (ids 1) 24 form welcome start joined joined
      (λ n password hash made. ground (arith, made, eq_iff hash password)) register_test refl refl
      refl

contains_str-StandsIn_example :
    (contains_str "a duplicate key" "duplicate" ≡ true)
    ↔ StandsIn (len "a duplicate key" + 1 - len "duplicate") 0 "a duplicate key" "duplicate"
contains_str-StandsIn_example = contains_str-StandsIn "a duplicate key" "duplicate"

abbrev pub silent : Providers
silent = record {
  push = λ env n driver title body. some "no device";
  email = λ env n driver title body. some "no address";
}

abbrev notice : SendRequest
notice = record {
  driver_id = "alice";
  channel = channel_both;
  template_id = payment_success;
  values = λ key. "5000";
}

abbrev told : World
told = send_each stores silent (notice ∷ notice ∷ []) start

get_notification_history-empty_example :
    (get_notification_history stores "alice" 0 0 told).0 ≡ ok ([], 0)
unfolding send_notification persist dispatch send_by insert_notice log_entry now new_uuid call
    channel_text template_text
get_notification_history-empty_example =
    get_notification_history-empty stores silent (notice ∷ notice ∷ []) "alice" 0 0 start told refl
      (λ e. ground (arith, (eq_iff "alice" "").1 e)) ((λ n e. cc), ((λ n e. cc), tt)) refl refl refl

abbrev here : StreamRequest
here = record {
  driver_id = "alice";
  session_id = "";
  reservation_id = "id";
  coordinate = none;
  recorded_at = none;
}

abbrev there : StreamRequest
there = record here { recorded_at = some noon }
