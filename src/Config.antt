-- ===== src/Config.antt =====
-- pkg/config/config.go: the settings of a service, and which of them must be given. A float64 is a
-- value of the parameter `Float`; an `int` has 64 bits.
pub mod Load
pub mod Defaults
pub mod Connections
pub mod Required
use parkirpintar.Common.{
  ℕ, ◌+◌, ◌≡◌, ◌≢◌, ◌↔◌, ◌⊎◌, Bool, ◌||◌, List, [], ◌∷◌, ◌++◌, Option, none, some, String, ◌⧺◌,
  ◌==◌, arith, eq_iff, if◌then◌else◌,
}
use parkirpintar.Common.Int.{ℤ, pos, negsuc, quot_ℤ}
use parkirpintar.Common.Decimal.{decimal}

pub record DatabaseConfig : Type 0 where
  pub host : String
  pub port : ℤ
  pub name : String
  pub user : String
  pub password : String
  pub ssl_mode : String
  pub max_open_conns : ℤ
  pub max_idle_conns : ℤ
  pub conn_timeout : ℤ

pub record RedisConfig : Type 0 where
  pub addr : String
  pub password : String
  pub db : ℤ
  pub tls : Bool

pub record JwtConfig : Type 0 where
  pub secret : String
  pub expiry_hours : ℤ

pub record ServicesConfig : Type 0 where
  pub gateway_http_port : ℤ
  pub gateway_grpc_port : ℤ
  pub reservation_host : String
  pub reservation_grpc_port : ℤ
  pub billing_host : String
  pub billing_grpc_port : ℤ
  pub payment_host : String
  pub payment_grpc_port : ℤ
  pub presence_host : String
  pub presence_grpc_port : ℤ
  pub notification_host : String
  pub notification_grpc_port : ℤ

pub record MidtransConfig : Type 0 where
  pub server_key : String
  pub client_key : String
  pub env : String

pub record FcmConfig : Type 0 where
  pub project_id : String
  pub credentials_file : String

pub record SesConfig : Type 0 where
  pub region : String
  pub from_email : String

pub record ParkingConfig (Float : Type 0) : Type 0 where
  pub lat : Float
  pub lng : Float
  pub geofence_radius_meters : Float
  pub reservation_hold_mins : ℤ

pub record FeatureConfig : Type 0 where
  pub notification_provider : String
  pub payment_provider : String

-- RabbitMQConfig is its one field.
pub record Config (Float : Type 0) : Type 0 where
  pub database : DatabaseConfig
  pub redis : RedisConfig
  pub rabbitmq_url : String
  pub jwt : JwtConfig
  pub services : ServicesConfig
  pub midtrans : MidtransConfig
  pub fcm : FcmConfig
  pub ses : SesConfig
  pub parking : ParkingConfig Float
  pub feature : FeatureConfig

abbrev pub second : ℕ
second = 1_000_000_000

-- fmt's %d of an int.
unfoldable pub decimal_ℤ : ℤ → String
unfolding decimal
decimal_ℤ (pos n) = decimal 19 n
decimal_ℤ (negsuc n) = "-" ⧺ decimal 19 (n + 1)

-- DSN. The timeout's float64 of seconds is exact: it is a whole number of them.
unfoldable pub dsn : DatabaseConfig → String
unfolding decimal_ℤ
dsn d =
    "host="
    ⧺ d.host
    ⧺ " port="
    ⧺ decimal_ℤ d.port
    ⧺ " dbname="
    ⧺ d.name
    ⧺ " user="
    ⧺ d.user
    ⧺ " password="
    ⧺ d.password
    ⧺ " sslmode="
    ⧺ d.ssl_mode
    ⧺ " connect_timeout="
    ⧺ decimal_ℤ (quot_ℤ d.conn_timeout second)

-- redis.Options, with whether TLS is asked for, from version 1.2 on.
pub record RedisOptions : Type 0 where
  pub addr : String
  pub password : String
  pub db : ℤ
  pub tls : Option String

unfoldable pub redis_options : RedisConfig → RedisOptions
redis_options r = record {
  addr = r.addr;
  password = r.password;
  db = r.db;
  tls = if r.tls then some "1.2" else none;
}

abbrev missing_if : Bool → String → List String
missing_if b name = if b then name ∷ [] else []

-- strings.Join(…, ", ")
unfoldable pub join : List String → String
join [] = ""
join (s ∷ []) = s
join (s ∷ t ∷ ts) = s ⧺ ", " ⧺ join (t ∷ ts)

module _ {Float : Type 0} where
  -- The names, in the order of the tests.
  unfoldable pub missing : Config Float → List String
  missing cfg =
      missing_if (cfg.database.password == "") "DB_PASSWORD"
      ++ (missing_if (cfg.jwt.secret == "") "JWT_SECRET"
          ++ ((if cfg.feature.payment_provider == "midtrans"
                then missing_if (cfg.midtrans.server_key == "") "MIDTRANS_SERVER_KEY"
                  ++ missing_if (cfg.midtrans.client_key == "") "MIDTRANS_CLIENT_KEY"
                else [])
              ++ (if cfg.feature.notification_provider == "fcm"
                    || cfg.feature.notification_provider == "all"
                  then missing_if (cfg.fcm.project_id == "") "FCM_PROJECT_ID"
                  else [])))

  -- The text of the error, if there is one.
  unfoldable pub validate : Config Float → Option String
  unfolding missing join
  validate cfg = elim (missing cfg) [
    | [] ↦ none
    | s ∷ ss ↦ some ("missing required config: " ⧺ join (s ∷ ss))
  ]

  -- A configuration is accepted exactly if it has a database password and a token secret, both keys
  -- of Midtrans where that is the payment provider, and the project of FCM where notifications need
  -- it.
  pub validate_iff :
      (cfg : Config Float)
      → (validate cfg ≡ none) ↔ (
          (cfg.database.password ≢ "")
          × (cfg.jwt.secret ≢ "")
          × (cfg.feature.payment_provider ≡ "midtrans"
              → (cfg.midtrans.server_key ≢ "") × (cfg.midtrans.client_key ≢ ""))
          × ((cfg.feature.notification_provider ≡ "fcm")
                ⊎ (cfg.feature.notification_provider ≡ "all")
              → cfg.fcm.project_id ≢ ""))
  unfolding validate missing
  validate_iff cfg = ground (
    arith,
    eq_iff cfg.database.password "",
    eq_iff cfg.jwt.secret "",
    eq_iff cfg.feature.payment_provider "midtrans",
    eq_iff cfg.midtrans.server_key "",
    eq_iff cfg.midtrans.client_key "",
    eq_iff cfg.feature.notification_provider "fcm",
    eq_iff cfg.feature.notification_provider "all",
    eq_iff cfg.fcm.project_id "",
  )
