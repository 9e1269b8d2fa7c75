-- ===== src/Gateway/Throttling.antt =====
-- How many requests of one client key pass the limiter of services/gateway/cmd/main.go, over a sequence
-- of requests that the chain serves.
use parkirpintar.Common.{
  ◌≡◌, refl, inl, inr, ◌*◌, ◌≤◌, List, [], ◌∷◌, ◌++◌, none, some, Option, String, ◌==◌, arith,
  if◌then◌else◌, Bool-cases,
}
use parkirpintar.Common.Time.{Time, minute}
use parkirpintar.World.{World}
use parkirpintar.RateLimit.{Limiter, size, recent, allow}
use parkirpintar.RateLimit.Window.{Event, asks, accepted, IsOrdered, accepted-bounded}
use parkirpintar.Gateway.Serving.{
  HttpRequest, Input, Cors, cors_middleware, Settings, serve_http, gateway_limiter, route,
}
use parkirpintar.Accounts.Token.{http_middleware}
use parkirpintar.Gateway.Guarding.{client_of, limit_middleware_refuses, limit_middleware_passes}

abbrev pub passed : Option Cors → Time → List Time → List Time
passed none t past = past
passed (some _) t past = past ++ (t ∷ [])

module _ {P : Type 0} (settings : Settings P) where
  -- The requests one after another: when each comes and of which client.
  unfoldable pub arrivals : List (HttpRequest × Input) → Limiter → World → List (Time × Event)
  arrivals [] rl w = []
  arrivals ((req, input) ∷ rs) rl w =
      let (_, rl', w') = serve_http settings req input rl w in
      (w.env.clock w.ticks, asks (client_of req)) ∷ arrivals rs rl' w'

  -- The instants at which a request of the client got an answer from behind the limiter, which has
  -- the headers of corsMiddleware, after those of `past`.
  unfoldable pub let_through :
      String → List (HttpRequest × Input) → Limiter → World → List Time → List Time
  let_through key [] rl w past = past
  let_through key ((req, input) ∷ rs) rl w past =
      let (response, rl', w') = serve_http settings req input rl w in
      let_through key rs rl' w'
        (if client_of req == key then passed response.cors (w.env.clock w.ticks) past else past)

  serve_http-limiter :
      (req : HttpRequest) (input : Input) (rl : Limiter) (t : Time) (past : List Time) (w : World)
      → let (response, rl', _) = serve_http settings req input rl w in
        (rl' ≡ (allow (client_of req) (w.env.clock w.ticks) rl).1)
        × (passed response.cors t past ≡ (
            if (allow (client_of req) (w.env.clock w.ticks) rl).0 then past ++ (t ∷ []) else past))
  unfolding serve_http cors_middleware
  serve_http-limiter req input rl t past w =
      let next = cors_middleware settings.cors_origin req.http_method (
        http_middleware settings.jwt settings.secret req.path req.authorization
          (route settings req.path input)) in
      elim (Bool-cases (allow (client_of req) (w.env.clock w.ticks) rl).0) [
        | inl room ↦ ground (arith, room, limit_middleware_passes req next rl w room)
        | inr full ↦ ground (arith, full, limit_middleware_refuses req next rl w full)
      ]

  let_through-accepted :
      (key : String) (rs : List (HttpRequest × Input)) (rl : Limiter) (w : World) (past : List Time)
      → let_through key rs rl w past ≡ (accepted key (arrivals rs rl w) rl past).1
  unfolding let_through arrivals accepted
  let_through-accepted key [] rl w past = refl
  let_through-accepted key ((req, input) ∷ rs) rl w past =
      let (_, rl', w') = serve_http settings req input rl w in
      let t = w.env.clock w.ticks in
      let past' =
        if client_of req == key
        then (if (allow (client_of req) t rl).0 then past ++ (t ∷ []) else past)
        else past in
      ground
        (arith, serve_http-limiter req input rl t past w, let_through-accepted key rs rl' w' past')

  -- Whatever requests the gateway serves, one after another, where the clock does not go back from
  -- one to the next, no more than 100 requests of one client key get past the limiter in any minute
  -- up to an instant not before the last of them. The key is the address with its port, or what the
  -- client writes into X-Forwarded-For, so that one client may have many.
  pub let_through-bounded :
      (key : String) (rs : List (HttpRequest × Input)) (end : Time) (w : World)
      → IsOrdered 0 end (arrivals rs gateway_limiter w)
      → size (recent (1 * minute) end (let_through key rs gateway_limiter w [])) ≤ 100
  let_through-bounded key rs end w ordered =
      rw (let_through-accepted key rs gateway_limiter w [])
        (accepted-bounded key (arrivals rs gateway_limiter w) end 100 (1 * minute) ordered)
