-- ===== src/RateLimit.antt =====
-- services/gateway/internal/handler/ratelimit.go. The map of instants is a function: a key that the
-- map does not hold has no instants, and Allow and cleanup treat both alike. Each operation holds
-- the mutex from its first line to its last, so it is one step. The program makes its limiters
-- with a limit that is not negative.
pub mod Window
use parkirpintar.Common.{
  ℕ, ◌+◌, suc, Bool, true, false, List, [], ◌∷◌, ◌++◌, String, ◌==◌, ltb, if◌then◌else◌,
}
use parkirpintar.Common.Time.{Time}

pub record Limiter : Type 0 where
  pub requests : String → List Time
  pub limit : ℕ
  pub window : ℕ

unfoldable pub size : List Time → ℕ
size [] = 0
size (_ ∷ ts) = size ts + 1

-- The instants after now - window; the test adds the window on the other side.
unfoldable pub recent : ℕ → Time → List Time → List Time
recent window now [] = []
recent window now (t ∷ ts) =
    let rest = recent window now ts in if ltb now (t + window) then t ∷ rest else rest

abbrev pub put : String → List Time → Limiter → Limiter
put key ts rl = record rl { requests = λ j. if key == j then ts else rl.requests j }

unfoldable pub allow : String → Time → Limiter → Bool × Limiter
allow key now rl =
    let valid = recent rl.window now (rl.requests key) in
    if ltb (size valid) rl.limit
    then (true, put key (valid ++ (now ∷ [])) rl)
    else (false, put key valid rl)

-- One round of cleanup: a key without recent instants is deleted.
unfoldable pub sweep : Time → Limiter → Limiter
sweep now rl = record rl { requests = λ j. recent rl.window now (rl.requests j) }

unfoldable pub new_rate_limiter : ℕ → ℕ → Limiter
new_rate_limiter limit window = record { requests = λ _. []; limit = limit; window = window }

-- The key that Middleware limits by.
unfoldable pub client_key : String → String → String
client_key remote_addr forwarded = if forwarded == "" then remote_addr else forwarded
