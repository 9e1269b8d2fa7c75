-- ===== src/Common/Time.antt =====
-- Go's time.Time and time.Duration: an instant is its number of nanoseconds since the Unix epoch
-- (instants before it are not modelled), a duration a signed number of nanoseconds. `Time.Sub`
-- saturates at the bounds of an int64; `Duration.Minutes` is read to whole minutes, which its
-- float64 result gives exactly below 2 ^ 17 minutes.
use parkirpintar.Common.Int.{ℤ, pos, negsuc, sub_ℕ, quot_ℤ}
use parkirpintar.Common.Tests.{leb, if◌then◌else◌}
use Prim.Native.Nat.{ℕ, ◌*◌}

abbrev pub Time : Type 0
Time = ℕ

abbrev pub minute : ℕ
minute = 60 * 1_000_000_000

abbrev pub hour : ℕ
hour = 60 * minute

abbrev pub day : ℕ
day = 24 * hour

abbrev pub max_duration : ℕ
max_duration = 9223372036854775807

abbrev pub saturate : ℤ → ℤ
saturate (pos n) = if leb n max_duration then pos n else pos max_duration
saturate (negsuc n) = if leb n max_duration then negsuc n else negsuc max_duration

-- a.Sub(b)
abbrev pub sub_time : Time → Time → ℤ
sub_time a b = saturate (sub_ℕ a b)

-- int64(d.Minutes())
abbrev pub minutes : ℤ → ℤ
minutes d = quot_ℤ d minute
