-- ===== src/Shared/Idempotency.antt =====
-- pkg/idempotency/idempotency.go.
use parkirpintar.Common.{ℕ, ◌+◌, ◌*◌, Option, String}
use parkirpintar.Common.Time.{hour}
use parkirpintar.World.{M, gets, ◌>>=◌, modify, call}
use parkirpintar.Shared.Lock.{redis_get, redis_set}

abbrev pub default_ttl : ℕ
default_ttl = 24 * hour

-- The cached response, or `none` on a miss.
unfoldable pub check : String → M String (Option String)
check key = do t ← call; gets (λ w. redis_get key t w.redis)

unfoldable pub save : String → String → ℕ → M String (Unit {0})
save key response ttl = do
  t ← call
  modify (λ w. record w { redis = redis_set key response (t + ttl) w.redis })
