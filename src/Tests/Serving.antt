-- ===== src/Tests/Serving.antt =====
-- Requests that the gateway's HTTP server takes: with a token and without one, one after another,
-- for the spots, and a stream of locations.
use parkirpintar.Common.{
  ◌≡◌, ◌≢◌, ◌⊎◌, refl, ◌*◌, ◌≤◌, true, [], ◌∷◌, none, some, arith, List, String,
}
use parkirpintar.Common.Time.{minute}
use parkirpintar.Common.Grpc.{is_prefix}
use parkirpintar.Table.{take, read_rows, where_}
use parkirpintar.Accounts.Http.{HttpError}
use parkirpintar.World.{World, Result, ok, err, pure, now, call}
use parkirpintar.RateLimit.{Limiter, size, recent, allow, client_key, new_rate_limiter}
use parkirpintar.Accounts.Token.{
  Claims, Jwt, user_id_from_context, parse_at, parse_token, valid_claims, trim_prefix,
  is_public_path, header_user, http_middleware,
}
use parkirpintar.Reservation.Domain.{car}
use parkirpintar.Reservation.Outcomes.{Untouched}
use parkirpintar.Reservation.Repository.{
  join_all, spots_where, insert_sorted, sort_spots, count_spots, list_available_spots,
}
use parkirpintar.Gateway.History.{
  own_rows, own_history, latest_first, mark_all, reservation_history,
}
use parkirpintar.Gateway.SpotList.{
  lowers_to, vehicle_of, http_available_spots, http_available_spots-same,
}
use parkirpintar.Gateway.Serving.{
  HttpRequest, Input, Body, answer_of, plain as plain_text, history, no_content, answers,
  cors_headers, cors_middleware, limit_middleware, Settings, route, serve_http, gateway_limiter,
}
use parkirpintar.Gateway.Guarding.{refused_with, serve_http_guards, serve_http_refuses}
use parkirpintar.Gateway.Throttling.{arrivals, let_through, let_through-bounded}
use parkirpintar.Logger.{Line, RequestInfo, new, written_status}
use parkirpintar.Logger.Lines.{IsLineOf}
use parkirpintar.Gateway.Logged.{codes_of, serve_logged, serve_logged_line}
use parkirpintar.Gateway.Relay.{MyLocation}
use parkirpintar.Tests.{noon, clock_at, spot1, spot2, start}
use parkirpintar.Tests.Drivers.{open_jwt, plain}

abbrev settings : Settings String
settings = record {
  jwt = open_jwt;
  bcrypt = plain;
  secret = "secret";
  expiry_hours = 24;
  sha512_hex = λ s. s;
  server_key = "key";
  read_floor = λ s. none;
  cors_origin = "";
  swagger = "{}";
  api = λ path user. pure path;
}

-- A library that accepts no token.
abbrev closed_jwt : Jwt
closed_jwt = record {
  parse_with_claims = λ key_for token t. err "token is expired";
  signed_string = λ claims secret. ok claims.user_id;
}

abbrev strict : Settings String
strict = record settings { jwt = closed_jwt }

abbrev request : HttpRequest
request = record {
  http_method = "GET";
  path = "/v1/reservations/history";
  remote_addr = "10.0.0.1:4000";
  forwarded = "";
  authorization = "Bearer alice";
}

abbrev nothing : Input
nothing = record {
  register_body = none;
  login_body = none;
  confirm_body = none;
  settle_body = none;
  reservation_id = "";
  vehicle_type = "";
  floor = "";
}

abbrev served : World
served = record start { ticks = 4 }

abbrev limited : Limiter
limited = (allow "10.0.0.1:4000" (clock_at 0) gateway_limiter).1

serve_test :
    serve_http settings request nothing gateway_limiter start
    ≡ (record { cors = some (cors_headers ""); answer = answers (history []) }, limited, served)
unfolding serve_http limit_middleware cors_middleware http_middleware header_user parse_token
    parse_at valid_claims trim_prefix user_id_from_context is_public_path is_prefix route allow
    client_key recent size new_rate_limiter own_rows own_history latest_first take read_rows
    mark_all reservation_history join_all where_ now call
serve_test = refl

serve_http_guards_example :
    ((allow (client_key "10.0.0.1:4000" "") (clock_at 0) gateway_limiter).0 ≡ true)
    × (request.http_method ≢ "OPTIONS")
    × ((c : Claims) × (parse_at open_jwt "secret"
            (trim_prefix "Bearer " "Bearer alice")
            (clock_at 1)
          ≡ ok c)
        × ((r : Result HttpError (Body String)) × (route settings "/v1/reservations/history" nothing
                (user_id_from_context (some c.user_id))
                (record start { ticks = 2 })
              ≡ (r, served))
            × (answers (history []) ≡ answer_of r)))
unfolding is_public_path is_prefix
serve_http_guards_example =
    serve_http_guards settings request nothing
      (record { cors = some (cors_headers ""); answer = answers (history []) }) gateway_limiter
      limited start served refl serve_test (λ e. cc) (λ e. cc) (λ e. cc)

serve_http_refuses_example :
    let (response, _, w') = serve_http strict request nothing gateway_limiter start in
    Untouched start w'
    × ((response.answer ≡ no_content)
        ⊎ (refused_with response.answer ≡ some 429)
        ⊎ (refused_with response.answer ≡ some 401))
unfolding is_public_path is_prefix parse_at valid_claims
serve_http_refuses_example =
    serve_http_refuses strict request nothing "token is expired" gateway_limiter start refl refl

abbrev two_requests : List (HttpRequest × Input)
two_requests = (request, nothing) ∷ (request, nothing) ∷ []

let_through-bounded_example :
    size (
      recent
        (1 * minute)
        (clock_at 4)
        (let_through settings "10.0.0.1:4000" two_requests gateway_limiter start []))
    ≤ 100
unfolding arrivals serve_http limit_middleware cors_middleware http_middleware header_user
    parse_token parse_at valid_claims trim_prefix user_id_from_context is_public_path is_prefix
    route allow client_key recent size new_rate_limiter own_rows own_history latest_first take
    read_rows mark_all reservation_history join_all where_ now call
let_through-bounded_example =
    let_through-bounded settings "10.0.0.1:4000" two_requests (clock_at 4) start
      (omega arith, (omega arith, omega arith))

abbrev health_check : RequestInfo
health_check = record {
  http_method = "GET";
  path = "/healthz";
  request_id = "r-1";
  forwarded = "";
  real_ip = "";
  remote_addr = "10.0.0.1:4000";
  user_agent = "probe";
}

serve_logged_line_example :
    let out =
      (serve_logged settings
        (new (λ name. none) (record { service = "gateway"; level_name = "" }))
        health_check
        ""
        nothing
        gateway_limiter
        start).0 in
    (out.request_id_header ≡ "r-1")
    × (out.served ≡ (
      record { cors = some (cors_headers ""); answer = answers (plain_text "ok") },
      (allow "10.0.0.1:4000" (clock_at 1) gateway_limiter).1,
    ))
    × ((l : Line) × (out.lines ≡ l ∷ []) × IsLineOf "r-1" 200 l)
unfolding serve_http limit_middleware cors_middleware http_middleware is_public_path is_prefix route
    allow client_key recent size new_rate_limiter codes_of written_status new
serve_logged_line_example =
    serve_logged_line settings (λ name. none) (record { service = "gateway"; level_name = "" })
      health_check "" nothing gateway_limiter start (omega arith)

http_available_spots-same_example :
    ((list_available_spots car 0 start).0 ≡ ok (spot2 ∷ spot1 ∷ []))
    × ((http_available_spots (λ s. none) "VEHICLE_TYPE_CAR" "" start).0
        ≡ ok (spot2 ∷ spot1 ∷ [], 2))
unfolding vehicle_of lowers_to trim_prefix is_prefix spots_where sort_spots insert_sorted
    count_spots
http_available_spots-same_example =
    http_available_spots-same (λ s. none) "VEHICLE_TYPE_CAR" "" car 0 start start refl refl refl
      refl (λ e. refl) (λ e. absurd (omega (arith, e)))

abbrev here : MyLocation
here = record { session_id = ""; reservation_id = "id"; coordinate = none; recorded_at = none }

abbrev there : MyLocation
there = record here { recorded_at = some noon }
