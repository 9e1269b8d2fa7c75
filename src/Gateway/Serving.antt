-- ===== src/Gateway/Serving.antt =====
-- services/gateway/cmd/main.go: the chain before the HTTP handlers and the paths that they are
-- registered for; and Middleware of internal/handler/ratelimit.go. net/http's ServeMux gives a path
-- to the longest pattern that it matches; it redirects one that is not clean or lacks only a
-- pattern's last slash, and the paths here are others. What encoding/json and net/url give of a
-- request's body and query is `Input`; the handlers that generated code registers for "/v1/" are the
-- parameter `api`.
use parkirpintar.Common.{ℕ, ◌*◌, List, Option, none, some, String, ◌==◌, if◌then◌else◌}
use parkirpintar.Common.Int.{ℤ}
use parkirpintar.Common.Time.{minute}
use parkirpintar.Common.Grpc.{is_prefix}
use parkirpintar.World.{World, Result, ok, err, M, pure, fail, ◌>>=◌, next_tick}
use parkirpintar.RateLimit.{Limiter, allow, client_key, new_rate_limiter}
use parkirpintar.Accounts.Http.{HttpError, http_error}
use parkirpintar.Accounts.Token.{Jwt, http_middleware}
use parkirpintar.Accounts.Account.{
  Bcrypt, RegisterRequest, LoginRequest, AuthResponse, register, login,
}
use parkirpintar.Reservation.Domain.{Reservation, Spot}
use parkirpintar.Gateway.Confirmation.{ConfirmRequest, ConfirmAnswer, confirm_booking_payment}
use parkirpintar.Gateway.Pending.{PendingPayment, get_pending_payment}
use parkirpintar.Gateway.History.{reservation_history}
use parkirpintar.Gateway.Settlement.{SettleAnswer, simulate_settle}
use parkirpintar.Gateway.SpotList.{http_available_spots}

pub record HttpRequest : Type 0 where
  pub http_method : String
  pub path : String
  pub remote_addr : String
  pub forwarded : String
  pub authorization : String

pub record Input : Type 0 where
  pub register_body : Option RegisterRequest
  pub login_body : Option LoginRequest
  pub confirm_body : Option ConfirmRequest
  pub settle_body : Option String
  pub reservation_id : String
  pub vehicle_type : String
  pub floor : String

pub data Body (P : Type 0) : Type 0 where
  authenticated : AuthResponse → Body P
  history : List Reservation → Body P
  confirmation : ConfirmAnswer → Body P
  pending_payment : PendingPayment → Body P
  spot_list : List Spot × ℕ → Body P
  settlement : SettleAnswer → Body P
  plain : String → Body P
  proto : P → Body P

-- The headers that corsMiddleware sets.
pub record Cors : Type 0 where
  pub allow_origin : String
  pub allow_methods : String
  pub allow_headers : String

pub data Answer (A : Type 0) : Type 0 where
  no_content : Answer A
  answers : A → Answer A
  refuses : HttpError → Answer A

pub record Response (A : Type 0) : Type 0 where
  pub cors : Option Cors
  pub answer : Answer A

abbrev pub answer_of : {A : Type 0} → Result HttpError A → Answer A
answer_of (ok a) = answers a
answer_of (err e) = refuses e

-- `setting` is the environment's CORS_ORIGIN.
unfoldable pub cors_headers : String → Cors
cors_headers setting = record {
  allow_origin = if setting == "" then "*" else setting;
  allow_methods = "GET, POST, PUT, DELETE, OPTIONS";
  allow_headers = "Content-Type, Authorization, Idempotency-Key";
}

unfoldable pub cors_middleware :
    {A : Type 0} → String → String → M HttpError A → World → Response A × World
unfolding cors_headers
cors_middleware setting http_method next w =
    let headers = some (cors_headers setting) in
    if http_method == "OPTIONS"
    then (record { cors = headers; answer = no_content }, w)
    else (record { cors = headers; answer = answer_of (next w).0 }, (next w).1)

abbrev pub too_many : HttpError
too_many = http_error 429 "rate limit exceeded, try again later"

-- rateLimiter.Middleware: the clock is read once.
unfoldable pub limit_middleware :
    {A : Type 0}
    → HttpRequest
    → (World → Response A × World)
    → Limiter
    → World
    → Response A × Limiter × World
unfolding client_key
limit_middleware req next rl w =
    let (allowed, rl') =
      allow (client_key req.remote_addr req.forwarded) (w.env.clock w.ticks) rl in
    let (response, w') = next (next_tick w) in
    if allowed
    then (response, rl', w')
    else (record { cors = none; answer = refuses too_many }, rl', next_tick w)

pub record Settings (P : Type 0) : Type 0 where
  pub jwt : Jwt
  pub bcrypt : Bcrypt
  pub secret : String
  pub expiry_hours : ℕ
  pub sha512_hex : String → String
  pub server_key : String
  pub read_floor : String → Option ℤ
  pub cors_origin : String
  pub swagger : String
  pub api : String → Option String → M HttpError P

abbrev swagger_page : String
swagger_page =
    "<html><body><a href=\"https://petstore.swagger.io/?url=http://localhost:8080/swagger.json\">Open Swagger UI</a></body></html>"

module _ {P : Type 0} (settings : Settings P) where
  abbrev pub answers_as : {A : Type 0} → (A → Body P) → M HttpError A → M HttpError (Body P)
  answers_as f m = m >>= λ a. pure (f a)

  -- The handler that a path is registered for.
  unfoldable pub route : String → Input → Option String → M HttpError (Body P)
  unfolding is_prefix
  route path input user =
      if path == "/v1/auth/register"
      then answers_as authenticated (
          register settings.jwt settings.bcrypt settings.secret settings.expiry_hours
            input.register_body)
      else if path == "/v1/auth/login"
      then answers_as authenticated (
          login settings.jwt settings.bcrypt settings.secret settings.expiry_hours input.login_body)
      else if path == "/v1/reservations/history"
      then answers_as history (reservation_history user)
      else if path == "/v1/reservations/confirm-payment"
      then answers_as confirmation (confirm_booking_payment user input.confirm_body)
      else if path == "/v1/reservations/pending-payment"
      then answers_as pending_payment (get_pending_payment user input.reservation_id)
      else if path == "/v1/parking/spots"
      then answers_as spot_list
          (http_available_spots settings.read_floor input.vehicle_type input.floor)
      else if path == "/v1/payments/simulate-settle"
      then answers_as settlement
          (simulate_settle settings.sha512_hex settings.server_key input.settle_body)
      else if path == "/healthz"
      then pure (plain "ok")
      else if path == "/swagger.json"
      then pure (plain settings.swagger)
      else if is_prefix "/swagger/" path
      then pure (plain swagger_page)
      else if is_prefix "/v1/" path
      then answers_as proto (settings.api path user)
      else fail (http_error 404 "404 page not found")

  -- limiter.Middleware(corsMiddleware(validator.HTTPMiddleware(httpMux)))
  unfoldable pub serve_http :
      HttpRequest → Input → Limiter → World → Response (Body P) × Limiter × World
  serve_http req input = limit_middleware req (
      cors_middleware settings.cors_origin req.http_method (
        http_middleware settings.jwt settings.secret req.path req.authorization
          (route req.path input)))

-- The limiter that main makes.
abbrev pub gateway_limiter : Limiter
gateway_limiter = new_rate_limiter 100 (1 * minute)
