-- ===== src/Accounts/Token.antt =====
-- pkg/auth/auth.go. The JWT library is a parameter: ParseWithClaims asks a key function for the key
-- of the token's signing method, reads the clock, and gives the claims, if they have the expected
-- type, with the token's validity; SignedString signs claims with a secret.
use Prim.Native.String.{slice, len}
use parkirpintar.Common.{
  ℕ, ◌+◌, ◌*◌, Bool, ◌||◌, List, [], ◌∷◌, Option, none, some, String, ◌⧺◌, ◌==◌, if◌then◌else◌,
}
use parkirpintar.Common.Time.{Time, hour}
use parkirpintar.Common.Grpc.{is_prefix, Failure, status_error, unauthenticated}
use parkirpintar.World.{M, Result, ok, err, pure, or_fail, ◌>>=◌, map_err, now}
use parkirpintar.Accounts.Http.{HttpError, http_error, nonempty}

pub record Claims : Type 0 where
  pub user_id : String
  pub vehicle_type : String
  pub expires_at : Time
  pub issued_at : Time

-- The signing method in a token's header.
pub record Method : Type 0 where
  pub is_hmac : Bool
  pub alg : String

pub record Jwt : Type 0 where
  pub parse_with_claims :
      (Method → Result String String) → String → Time → Result String (Option Claims × Bool)
  pub signed_string : Claims → String → Result String String

-- The key function of ParseToken.
unfoldable pub key_of : String → Method → Result String String
key_of secret m = if m.is_hmac then ok secret else err ("unexpected signing method: " ⧺ m.alg)

-- ParseToken of what the library answers.
unfoldable pub valid_claims : Result String (Option Claims × Bool) → Result String Claims
valid_claims (err e) = err e
valid_claims (ok (none, _)) = err "invalid token claims"
valid_claims (ok (some c, valid)) = if valid then ok c else err "invalid token claims"

unfoldable pub parse_at : Jwt → String → String → Time → Result String Claims
unfolding key_of valid_claims
parse_at jwt secret token t = valid_claims (jwt.parse_with_claims (key_of secret) token t)

unfoldable pub parse_token : Jwt → String → String → M String Claims
parse_token jwt secret token = do t ← now; λ w. (parse_at jwt secret token t, w)

unfoldable pub generate_token : Jwt → String → String → String → ℕ → M String String
generate_token jwt secret user vehicle_type expiry_hours = do
  t ← now
  issued ← now
  let claims : Claims = record {
    user_id = user;
    vehicle_type = vehicle_type;
    expires_at = t + expiry_hours * hour;
    issued_at = issued;
  }
  λ w. (jwt.signed_string claims secret, w)

-- strings.TrimPrefix
unfoldable pub trim_prefix : String → String → String
trim_prefix p s = if is_prefix p s then slice s (len p) (len s) else s

-- The context's user id, which the middleware and the interceptor put there.
unfoldable pub user_id_from_context : Option String → Option String
user_id_from_context user = nonempty user

abbrev pub is_public_method : String → Bool
is_public_method method = method == "/grpc.health.v1.Health/Check"

abbrev first_value : List String → Option String
first_value [] = none
first_value (v ∷ _) = some v

-- The user of the metadata's values of "authorization", if there is metadata.
unfoldable pub metadata_user : Jwt → String → Option (List String) → M Failure String
metadata_user jwt secret metadata = do
  values ← or_fail metadata (status_error unauthenticated "missing metadata")
  value ← or_fail (first_value values) (status_error unauthenticated "missing authorization header")
  claims ←
      map_err (λ e. status_error unauthenticated ("invalid token: " ⧺ e))
        (parse_token jwt secret (trim_prefix "Bearer " value))
  pure claims.user_id

unfoldable pub unary_interceptor :
    {A : Type 0}
    → Jwt
    → String
    → String
    → Option (List String)
    → (Option String → M Failure A)
    → M Failure A
unary_interceptor jwt secret method metadata handler w =
    if is_public_method method
    then handler none w
    else (metadata_user jwt secret metadata >>= λ user. handler (user_id_from_context (some user)))
        w

unfoldable pub is_public_path : String → Bool
is_public_path path =
    path == "/healthz"
    || path == "/swagger.json"
    || is_prefix "/swagger/" path
    || path == "/v1/auth/register"
    || path == "/v1/auth/login"

-- The user of the Authorization header.
unfoldable pub header_user : Jwt → String → String → M HttpError String
header_user jwt secret header = do
  value ← or_fail (nonempty (some header)) (http_error 401 "missing authorization header")
  claims ←
      map_err (λ e. http_error 401 ("invalid token: " ⧺ e))
        (parse_token jwt secret (trim_prefix "Bearer " value))
  pure claims.user_id

-- The handler behind it is given what its UserIDFromContext finds, here and for the interceptor.
unfoldable pub http_middleware :
    {A : Type 0} → Jwt → String → String → String → (Option String → M HttpError A) → M HttpError A
http_middleware jwt secret path header next w =
    if is_public_path path
    then next none w
    else (header_user jwt secret header >>= λ user. next (user_id_from_context (some user))) w
