-- ===== src/Accounts/Http.antt =====
-- The answers of an HTTP handler: an error is the status code and the text of writeError of
-- services/gateway/internal/handler/auth.go, or of http.Error.
use parkirpintar.Common.{ℕ, Bool, Option, none, some, String, ◌==◌, if◌then◌else◌}

pub record HttpError : Type 0 where
  pub code : ℕ
  pub message : String

abbrev pub http_error : ℕ → String → HttpError
http_error code message = record { code = code; message = message }

abbrev pub is_empty : String → Bool
is_empty s = s == ""

abbrev pub nonempty : Option String → Option String
nonempty none = none
nonempty (some s) = if s == "" then none else some s
