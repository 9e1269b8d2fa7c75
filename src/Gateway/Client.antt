-- ===== src/Gateway/Client.antt =====
-- The gRPC clients of services/gateway (cmd/main.go): a call of another service. The request or its
-- answer may be lost, and the circuit breaker may refuse the call; each shows as a request of the
-- environment that fails, and the caller sees the code Unavailable. A service that panics is lost to
-- its caller as well.
use parkirpintar.Common.{Option, String, ◌⧺◌}
use parkirpintar.Common.Grpc.{
  Code, invalid_argument, not_found, permission_denied, resource_exhausted, failed_precondition,
  unimplemented, internal, unavailable, unauthenticated, Failure, status_error, nil_dereference,
}
use parkirpintar.World.{M, or_fail, pure, ◌>>=◌, map_err, call}

-- codes.Code's String.
abbrev code_text : Code → String
code_text invalid_argument = "InvalidArgument"
code_text not_found = "NotFound"
code_text permission_denied = "PermissionDenied"
code_text resource_exhausted = "ResourceExhausted"
code_text failed_precondition = "FailedPrecondition"
code_text unimplemented = "Unimplemented"
code_text internal = "Internal"
code_text unavailable = "Unavailable"
code_text unauthenticated = "Unauthenticated"

-- What an error of a client prints as.
abbrev pub error_text : Failure → String
error_text (status_error code message) =
    "rpc error: code = " ⧺ code_text code ⧺ " desc = " ⧺ message
error_text nil_dereference = "runtime error: invalid memory address or nil pointer dereference"

abbrev over_wire : Failure → Failure
over_wire (status_error code message) = status_error code message
over_wire nil_dereference = status_error unavailable "error reading from server: EOF"

-- auth.UserIDFromContext, or its absence.
abbrev pub user_of : Option String → M Failure String
user_of user = or_fail user (status_error unauthenticated "missing user id")

unfoldable pub rpc : {A : Type 0} → M Failure A → M Failure A
rpc m = do
  _ ← map_err (status_error unavailable) call
  r ← map_err over_wire m
  _ ← map_err (status_error unavailable) call
  pure r
