-- ===== src/Gateway/Guarding.antt =====
-- What the chain of services/gateway/cmd/main.go lets through to the HTTP handlers.
use parkirpintar.Common.{
  ◌≡◌, ◌≢◌, ◌⊎◌, refl, inl, inr, ℕ, ◌+◌, true, false, Option, none, some, String, arith, eq_iff,
  Bool-cases, ◌==◌,
}
use parkirpintar.World.{World, Result, M, ok, err, next_tick, now}
use parkirpintar.RateLimit.{Limiter, allow, client_key}
use parkirpintar.Accounts.Http.{HttpError}
use parkirpintar.Accounts.Token.{
  Claims, user_id_from_context, parse_at, parse_token, trim_prefix, is_public_path, header_user,
  http_middleware,
}
use parkirpintar.Accounts.Sessions.{refusal_code, http_middleware_guards}
use parkirpintar.Reservation.Outcomes.{Untouched}
use mathlib.Core.Option
use parkirpintar.Gateway.Serving.{
  HttpRequest, Input, Body, Answer, no_content, refuses, Response, cors_middleware, too_many,
  limit_middleware, answer_of, Settings, route, serve_http,
}

abbrev pub client_of : HttpRequest → String
client_of req = client_key req.remote_addr req.forwarded

-- Where the limiter has no room, the request ends there.
pub limit_middleware_refuses :
    {A : Type 0}
    → (req : HttpRequest) (next : World → Response A × World) (rl : Limiter) (w : World)
    → (allow (client_of req) (w.env.clock w.ticks) rl).0 ≡ false
    → limit_middleware req next rl w ≡ (
      record { cors = none; answer = refuses too_many },
      (allow (client_of req) (w.env.clock w.ticks) rl).1,
      next_tick w,
    )
unfolding limit_middleware
limit_middleware_refuses req next rl w full = rw full refl

pub limit_middleware_passes :
    {A : Type 0}
    → (req : HttpRequest) (next : World → Response A × World) (rl : Limiter) (w : World)
    → (allow (client_of req) (w.env.clock w.ticks) rl).0 ≡ true
    → limit_middleware req next rl w ≡ (
      (next (next_tick w)).0,
      (allow (client_of req) (w.env.clock w.ticks) rl).1,
      (next (next_tick w)).1,
    )
unfolding limit_middleware
limit_middleware_passes req next rl w room = rw room refl

cors_middleware-passes :
    {A : Type 0}
    → (origin http_method : String) (next : M HttpError A) (response : Response A) (w w' : World)
    → cors_middleware origin http_method next w ≡ (response, w')
    → response.answer ≢ no_content
    → (http_method ≢ "OPTIONS")
      × ((r : Result HttpError A) × (next w ≡ (r, w')) × (response.answer ≡ answer_of r))
unfolding cors_middleware
cors_middleware-passes origin http_method next response w w' h other =
    elim (Bool-cases (http_method == "OPTIONS")) [
      | inl options ↦ absurd (other (ground (arith, options)))
      | inr method ↦ (
        ground (arith, method, eq_iff http_method "OPTIONS"),
        ((next w).0, ground (arith, method), ground (arith, method)),
      )
    ]

-- A token that is not accepted, or is not there.
abbrev refusal : {A : Type 0} → Result HttpError A → Option HttpError
refusal (ok a) = none
refusal (err e) = some e

http_middleware_refuses :
    {A : Type 0} {P : Type 0}
    → (settings : Settings P) (path header : String) (next : Option String → M HttpError A)
      (e : String) (w : World)
    → is_public_path path ≡ false
    → parse_at settings.jwt settings.secret (trim_prefix "Bearer " header) (w.env.clock w.ticks)
      ≡ err e
    → let (r, w') = http_middleware settings.jwt settings.secret path header next w in
      (Option.map (λ (x : HttpError). x.code) (refusal r) ≡ some 401) × Untouched w w'
unfolding http_middleware header_user parse_token now
http_middleware_refuses settings path header next e w private bad = ground (arith, eq_iff header "")

abbrev pub refused_with : {A : Type 0} → Answer A → Option ℕ
refused_with (refuses e) = some e.code
refused_with _ = none

refusal_of :
    {A : Type 0} (a : Answer A) (r : Result HttpError A)
    → a ≡ answer_of r
    → refusal_code r ≡ some 401
    → refused_with a ≡ some 401
refusal_of a (ok x) same e = cc
refusal_of a (err x) same e = rw same e

module _ {P : Type 0} (settings : Settings P) where
  -- A request for a path that is not public, which is answered otherwise than as a preflight or with
  -- 429 or 401, is answered as its handler answers, error or not: the limiter has room for the client
  -- key, the request is no preflight, and its token is one that the library accepts at that instant;
  -- the handler runs, after two readings of the clock, as the user of the token's claims, and with no
  -- user if their id is empty.
  pub serve_http_guards :
      (req : HttpRequest) (input : Input) (response : Response (Body P)) (rl rl' : Limiter)
      (w w' : World)
      → is_public_path req.path ≡ false
      → serve_http settings req input rl w ≡ (response, rl', w')
      → response.answer ≢ no_content
      → refused_with response.answer ≢ some 429
      → refused_with response.answer ≢ some 401
      → ((allow (client_of req) (w.env.clock w.ticks) rl).0 ≡ true)
        × (req.http_method ≢ "OPTIONS")
        × ((c : Claims) × (parse_at settings.jwt settings.secret
                (trim_prefix "Bearer " req.authorization)
                (w.env.clock (w.ticks + 1))
              ≡ ok c)
            × ((r : Result HttpError (Body P)) × (route settings req.path input
                    (user_id_from_context (some c.user_id))
                    (next_tick (next_tick w))
                  ≡ (r, w'))
                × (response.answer ≡ answer_of r)))
  unfolding serve_http
  serve_http_guards req input response rl rl' w w' private h other not_limited not_refused =
      let guarded =
        http_middleware settings.jwt settings.secret req.path req.authorization
          (route settings req.path input) in
      let next = cors_middleware settings.cors_origin req.http_method guarded in
      elim (Bool-cases (allow (client_of req) (w.env.clock w.ticks) rl).0) [
        | inl room ↦
            let (method, (r, inner, same)) =
              cors_middleware-passes settings.cors_origin req.http_method guarded response
                (next_tick w) w' (ground (arith, h, limit_middleware_passes req next rl w room))
                other in
            let (c, accepted, ran) =
              http_middleware_guards settings.jwt settings.secret req.path req.authorization
                (route settings req.path input) r (next_tick w) w' private inner
                (λ e. not_refused (refusal_of response.answer r same e)) in
            (room, method, (c, accepted, (r, ran, same)))
        | inr full ↦
            absurd (not_limited (ground (arith, h, limit_middleware_refuses req next rl w full)))
      ]

  -- A request for a path that is not public, whose token the library does not accept, changes no
  -- table, no key of Redis and sends no message; it is answered as a preflight, or refused with 429
  -- by the limiter or with 401.
  pub serve_http_refuses :
      (req : HttpRequest) (input : Input) (e : String) (rl : Limiter) (w : World)
      → is_public_path req.path ≡ false
      → parse_at settings.jwt settings.secret
          (trim_prefix "Bearer " req.authorization)
          (w.env.clock (w.ticks + 1))
        ≡ err e
      → let (response, _, w') = serve_http settings req input rl w in
        Untouched w w'
        × ((response.answer ≡ no_content)
            ⊎ (refused_with response.answer ≡ some 429)
            ⊎ (refused_with response.answer ≡ some 401))
  unfolding serve_http cors_middleware
  serve_http_refuses req input e rl w private bad =
      let next = cors_middleware settings.cors_origin req.http_method (
        http_middleware settings.jwt settings.secret req.path req.authorization
          (route settings req.path input)) in
      elim (Bool-cases (allow (client_of req) (w.env.clock w.ticks) rl).0) [
        | inl room ↦ ground (
          arith,
          limit_middleware_passes req next rl w room,
          http_middleware_refuses settings req.path req.authorization
              (route settings req.path input) e (next_tick w) private bad,
        )
        | inr full ↦ ground (arith, limit_middleware_refuses req next rl w full)
      ]
