-- ===== src/Common/Grpc.antt =====
-- The answers of the gRPC handlers: status codes of google.golang.org/grpc/codes with a message,
-- or the panic of a nil pointer; and Go's strings.Contains.
use Prim.Native.Char.{code}
use Prim.Native.String.{String}
use mathlib.Core.Bool.{Bool, true, false, ◌&&◌, ◌||◌}
use parkirpintar.Common.Tests.{eqb}

pub data Code : Type 0 where
  invalid_argument not_found permission_denied resource_exhausted : Code
  failed_precondition unimplemented internal unavailable unauthenticated : Code

pub data Failure : Type 0 where
  status_error : Code → String → Failure
  nil_dereference : Failure

unfoldable pub is_prefix : String → String → Bool
is_prefix String.[] s = true
is_prefix (String.◌∷◌ c p) String.[] = false
is_prefix (String.◌∷◌ c p) (String.◌∷◌ d s) = eqb (code c) (code d) && is_prefix p s

-- strings.Contains(s, sub)
unfoldable pub contains : String → String → Bool
unfolding is_prefix
contains String.[] sub = is_prefix sub String.[]
contains (String.◌∷◌ c s) sub = is_prefix sub (String.◌∷◌ c s) || contains s sub
