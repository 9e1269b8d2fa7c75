-- ===== src/Common/Decimal.antt =====
-- Numbers as decimal text, as fmt's %d prints them.
use Prim.Native.Nat.{ℕ, zero, suc, ◌+◌, ◌/◌, ◌%◌}
use Prim.Native.String.{String, slice, ◌++◌ as ◌⧺◌}
use parkirpintar.Common.Tests.{ltb, if◌then◌else◌}

abbrev digit : ℕ → String
digit n = slice "0123456789" n (n + 1)

-- The last digits of a number, as many as there are rounds.
unfoldable pub decimal : ℕ → ℕ → String
decimal zero n = ""
decimal (suc rounds) n =
    let rest = decimal rounds (n / 10) in if ltb n 10 then digit n else rest ⧺ digit (n % 10)
