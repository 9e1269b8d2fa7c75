-- ===== src/Reservation/Keys.antt =====
-- The keys that the reservation service uses in Redis.
use Prim.Native.Char.{code}
use parkirpintar.Common.{ℕ, ◌≡◌, ◌≢◌, ap, arith, String, ◌⧺◌}
use parkirpintar.Reservation.Usecase.{spot_lock_key, idempotency_entry}
use text.Mathlib.TextLemmas.{cons-append, append_cancel_left, append_cancel_right}

-- Locks of different spots have different keys.
pub spot_lock_key-injective : (a b : String) → spot_lock_key a ≡ spot_lock_key b → a ≡ b
unfolding spot_lock_key
spot_lock_key-injective a b h =
    append_cancel_right a b ":lock" (append_cancel_left "spot:" (a ⧺ ":lock") (b ⧺ ":lock") h)

abbrev pub first_code : String → ℕ
first_code String.[] = 0
first_code (String.◌∷◌ c s) = code c

pub first_code-spot_lock_key : (s : String) → first_code (spot_lock_key s) ≡ b's'
unfolding spot_lock_key
first_code-spot_lock_key s = ap first_code (cons-append "s" "pot:" (s ⧺ ":lock"))

first_code-idempotency_entry : (k : String) → first_code (idempotency_entry k) ≡ b'i'
unfolding idempotency_entry
first_code-idempotency_entry k = ap first_code (cons-append "i" "dempotency:" k)

-- A lock is never an idempotency entry.
pub spot_lock_key-ne-idempotency_entry : (s k : String) → spot_lock_key s ≢ idempotency_entry k
spot_lock_key-ne-idempotency_entry s k h =
    omega (arith, ap first_code h, first_code-spot_lock_key s, first_code-idempotency_entry k)
