-- ===== src/Tests/Settings.antt =====
-- Settings that are read by a small viper, and messages that the consumer's loop takes.
use parkirpintar.Common.{
  ◌≡◌, refl, false, [], ◌∷◌, map, Option, none, some, String, ◌==◌, if◌then◌else◌,
}
use parkirpintar.Common.Int.{ℤ, pos}
use parkirpintar.World.{Message}
use parkirpintar.Config.Load.{file_not_found, Viper}
use parkirpintar.Config.Defaults.{prefer, ViperLaws, configured}
use parkirpintar.Config.{Config, decimal_ℤ}
use parkirpintar.Config.Connections.{client_addr, reservation_client}
use parkirpintar.Common.Decimal.{decimal}
use parkirpintar.Mq.{acked, consume}
use parkirpintar.Mq.Consuming.{notifications_acked}
use parkirpintar.Notification.Handler.{stores}
use parkirpintar.Notification.Subscriber.{handle_event}
use parkirpintar.Reservation.Publisher.{from_domain, reservation_confirmed_event}
use parkirpintar.Tests.{clock_at, start}
use parkirpintar.Tests.Bookings.{alice1}
use parkirpintar.Tests.Drivers.{silent}

data Value : Type 0 where
  text float : String → Value
  int : ℤ → Value

abbrev environment : String → Option Value
environment key =
    if key == "DB_PASSWORD"
    then some (text "pw")
    else if key == "JWT_SECRET"
    then some (text "secret")
    else none

abbrev text_of : Option Value → String
text_of (some (text s)) = s
text_of _ = ""

abbrev int_of : Option Value → ℤ
int_of (some (int n)) = n
int_of _ = pos 0

abbrev float_of : Option Value → String
float_of (some (float s)) = s
float_of _ = "0"

-- The state is the defaults.
abbrev small : Viper
small = record {
  Float = String;
  Value = Value;
  State = String → Option Value;
  literal = λ s. s;
  of_text = text;
  of_int = int;
  of_float = float;
  new = λ key. none;
  read_in_config = λ s. (some file_not_found, s);
  set_default = λ key x s. λ j. if key == j then some x else s j;
  get_string = λ key s. text_of (prefer (environment key) (s key));
  get_int = λ key s. int_of (prefer (environment key) (s key));
  get_bool = λ key s. false;
  get_float64 = λ key s. float_of (prefer (environment key) (s key));
}

unfoldable small_laws : ViperLaws small
small_laws = record {
  given = λ key s. environment key;
  fallback = λ key s. s key;
  same_key = λ j k. j == k;
  same_key-upper = λ j k upper upper'. refl;
  to_string = text_of;
  to_int = int_of;
  to_bool = λ x. false;
  to_float64 = float_of;
  fallback-new = λ key. refl;
  given-set_default = λ j k x s. refl;
  fallback-set_default = λ j k x s. refl;
  get_string-reads = λ k s. refl;
  get_int-reads = λ k s. refl;
  get_bool-reads = λ k s. refl;
  get_float64-reads = λ k s. refl;
}

abbrev small_config : Config String
small_config = configured small small_laws

abbrev message : Message
message = record {
  event = reservation_confirmed_event;
  timestamp = clock_at 3;
  payload = from_domain alice1;
}

notifications_acked_example :
    (consume (handle_event stores silent) (map some (message ∷ message ∷ [])) start).0
    ≡ acked ∷ acked ∷ []
notifications_acked_example = notifications_acked stores silent (message ∷ message ∷ []) start

-- With the address that Load has by default, the reservation service's own client gets an address
-- with two ports.
reservation_client_test :
    client_addr (
      reservation_client
        (record { addr = "localhost:6379"; password = ""; db = pos 0; tls = false }))
    ≡ "localhost:6379:6379"
unfolding client_addr decimal_ℤ decimal
reservation_client_test = refl
