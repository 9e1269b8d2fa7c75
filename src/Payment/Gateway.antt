-- ===== src/Payment/Gateway.antt =====
-- PaymentGateway of services/payment/internal/domain/domain.go, and the gateway of
-- services/payment/internal/gateway/mock.go. SHA-512 in hexadecimal is a parameter.
-- An operation of a gateway answers from the environment and the number of requests made of it so
-- far, and returns the number after it: it changes no table of the program.
use Prim.Native.String.{slice}
use parkirpintar.Common.{ℕ, ◌+◌, ◌*◌, String, ◌⧺◌}
use parkirpintar.Common.Time.{Time, minute, hour}
use parkirpintar.World.{Env, Result, ok, M}
use parkirpintar.Payment.Domain.{CustomerInfo}

abbrev pub Ask : Type 0 → Type 0
Ask A = Env → ℕ → Result String A × ℕ

pub record Gateway : Type 0 where
  pub create_qris : String → ℕ → CustomerInfo → Ask (String × String × Time)
  pub create_va : String → String → ℕ → CustomerInfo → Ask (String × Time)
  pub verify_webhook_signature : String → String → String → String → String

abbrev pub ask : {A : Type 0} → Ask A → M String A
ask f w = let (r, n) = f w.env w.ticks in (r, record w { ticks = n })

-- The first eight bytes of a text, which every identifier has.
unfoldable pub first_eight : String → String
first_eight s = slice s 0 8

unfoldable pub mock_qris : String → ℕ → CustomerInfo → Ask (String × String × Time)
unfolding first_eight
mock_qris order amount customer env n = (
  ok (
    "mock-qr-" ⧺ first_eight (env.uuid n),
    "https://pay.mock/qris/" ⧺ order,
    env.clock (n + 1) + 15 * minute,
  ),
  n + 1 + 1,
)

unfoldable pub mock_va : String → String → ℕ → CustomerInfo → Ask (String × Time)
unfolding first_eight
mock_va order bank amount customer env n =
    (ok ("8800" ⧺ first_eight order, env.clock n + 24 * hour), n + 1)

unfoldable pub webhook_signature : (String → String) → String → String → String → String → String
webhook_signature sha512_hex order status_code gross_amount server_key =
    sha512_hex (order ⧺ status_code ⧺ gross_amount ⧺ server_key)

abbrev pub mock : (String → String) → Gateway
mock sha512_hex = record {
  create_qris = mock_qris;
  create_va = mock_va;
  verify_webhook_signature = webhook_signature sha512_hex;
}
