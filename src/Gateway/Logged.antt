-- ===== src/Gateway/Logged.antt =====
-- The request logger that services/gateway/cmd/main.go puts before the rate limiter, and what it
-- writes of a request.
use parkirpintar.Common.{◌≡◌, ℕ, ◌≤◌, List, [], ◌∷◌, Option, String, ◌==◌, if◌then◌else◌}
use parkirpintar.World.{World, next_tick}
use parkirpintar.RateLimit.{Limiter}
use parkirpintar.Logger.{
  Level, Line, Logger, Config, new, severity, RequestInfo, Served, given_or_new, written_status,
  http_request_logger,
}
use parkirpintar.Logger.Lines.{IsLineOf, http_request_logger_line}
use parkirpintar.Gateway.Serving.{
  HttpRequest, Input, Body, authenticated, plain, proto, Answer, no_content, answers, refuses,
  Response, Settings, serve_http,
}

-- What the handlers give to WriteHeader.
unfoldable pub codes_of : {P : Type 0} → String → Answer (Body P) → List ℕ
codes_of path no_content = 204 ∷ []
codes_of path (refuses e) = e.code ∷ []
codes_of path (answers (authenticated _)) = (if path == "/v1/auth/register" then 201 else 200) ∷ []
codes_of path (answers (plain _)) = if path == "/healthz" then 200 ∷ [] else []
codes_of path (answers (proto _)) = []
codes_of path (answers _) = 200 ∷ []

abbrev pub request_of : RequestInfo → String → HttpRequest
request_of info authorization = record {
  http_method = info.http_method;
  path = info.path;
  remote_addr = info.remote_addr;
  forwarded = info.forwarded;
  authorization = authorization;
}

-- logger.HTTPRequestLogger(log) of the chain; a request starts with an empty context.
unfoldable pub serve_logged :
    {P : Type 0}
    → Settings P
    → Logger
    → RequestInfo
    → String
    → Input
    → Limiter
    → World
    → Served (Response (Body P) × Limiter) × World
unfolding codes_of
serve_logged settings log info authorization input rl = http_request_logger log info [] (λ ctx w.
    let (response, rl', w') = serve_http settings (request_of info authorization) input rl w in
    (codes_of info.path response.answer, (response, rl'), w'))

-- Whatever the chain answers to a request, it is answered so, and one line of the request is
-- written, where the logger is made by New with a level not above info: with the status that the
-- answer has and the level error for 500 and above, warn for 400 and above, else info; with the id
-- that the answer's header names, which is the request's own or else a new one; and never with a
-- driver's id.
pub serve_logged_line :
    {P : Type 0}
    → (settings : Settings P) (parse_level : String → Option Level) (cfg : Config)
    → (info : RequestInfo) (authorization : String) (input : Input) (rl : Limiter) (w : World)
    → severity (new parse_level cfg).threshold ≤ 1
    → let (id, w₁) = given_or_new info.request_id (next_tick w) in
      let (response, rl', w') = serve_http settings (request_of info authorization) input rl w₁ in
      let out = (serve_logged settings (new parse_level cfg) info authorization input rl w).0 in
      (out.request_id_header ≡ id)
      × (out.served ≡ (response, rl'))
      × ((l : Line) × (out.lines ≡ l ∷ [])
          × IsLineOf id (written_status 200 (codes_of info.path response.answer)) l)
unfolding serve_logged
serve_logged_line settings parse_level cfg info authorization input rl w low =
    http_request_logger_line parse_level cfg info _ w low
