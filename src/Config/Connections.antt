-- ===== src/Config/Connections.antt =====
-- pkg/database/database.go and pkg/redis/redis.go: which settings open a pool of connections to
-- PostgreSQL and a client of Redis, and what the services give to them. pgxpool.New is the parameter
-- `open_pool`, of the connection text; redis.NewClient only keeps its options.
use parkirpintar.Common.{
  ◌≡◌, ◌≢◌, ◌↔◌, Option, none, some, String, ◌⧺◌, ◌==◌, if◌then◌else◌, eqb, Bool, false, arith,
  eq_iff,
}
use parkirpintar.Common.Int.{ℤ, pos}
use parkirpintar.World.{Result, ok, err}
use parkirpintar.Config.{DatabaseConfig, RedisConfig, Config, decimal_ℤ, missing, validate}

-- database.Config.
pub record PoolConfig : Type 0 where
  pub host : String
  pub port : ℤ
  pub name : String
  pub user : String
  pub password : String
  pub ssl_mode : String
  pub max_open_conns : ℤ
  pub max_idle_conns : ℤ

unfoldable pub pool_dsn : PoolConfig → String
unfolding decimal_ℤ
pool_dsn c =
    "host="
    ⧺ c.host
    ⧺ " port="
    ⧺ decimal_ℤ c.port
    ⧺ " dbname="
    ⧺ c.name
    ⧺ " user="
    ⧺ c.user
    ⧺ " password="
    ⧺ c.password
    ⧺ " sslmode="
    ⧺ c.ssl_mode
    ⧺ " pool_max_conns="
    ⧺ decimal_ℤ c.max_open_conns
    ⧺ " pool_min_conns="
    ⧺ decimal_ℤ c.max_idle_conns

unfoldable pub pool_validate : PoolConfig → Option String
pool_validate c =
    if c.host == ""
    then some "database host is required"
    else if c.name == ""
    then some "database name is required"
    else if c.user == ""
    then some "database user is required"
    else if c.password == ""
    then some "database password is required"
    else none

-- New of package database.
unfoldable pub new_pool : {P : Type 0} → (String → Result String P) → PoolConfig → Result String P
unfolding pool_validate pool_dsn
new_pool open_pool c = elim (pool_validate c) [
  | some e ↦ err e
  | none ↦ elim (open_pool (pool_dsn c)) [
    | ok pool ↦ ok pool
    | err e ↦ err ("failed to create connection pool: " ⧺ e)
  ]
]

-- The fields that every main gives to database.New.
abbrev pub pool_of : DatabaseConfig → PoolConfig
pool_of d = record {
  host = d.host;
  port = d.port;
  name = d.name;
  user = d.user;
  password = d.password;
  ssl_mode = d.ssl_mode;
  max_open_conns = d.max_open_conns;
  max_idle_conns = d.max_idle_conns;
}

-- redis.Config.
pub record ClientConfig : Type 0 where
  pub host : String
  pub port : ℤ
  pub password : String
  pub db : ℤ
  pub max_retries : ℤ

pub record ClientOptions : Type 0 where
  pub addr : String
  pub password : String
  pub db : ℤ
  pub max_retries : ℤ

unfoldable pub client_addr : ClientConfig → String
unfolding decimal_ℤ
client_addr c = c.host ⧺ ":" ⧺ decimal_ℤ c.port

abbrev is_zero : ℤ → Bool
is_zero (pos n) = eqb n 0
is_zero _ = false

unfoldable pub client_validate : ClientConfig → Option String
client_validate c =
    if c.host == ""
    then some "redis host is required"
    else if is_zero c.port
    then some "redis port is required"
    else none

-- New of package redis.
unfoldable pub new_client : ClientConfig → Result String ClientOptions
unfolding client_validate client_addr
new_client c = elim (client_validate c) [
  | some e ↦ err e
  | none ↦ ok (record {
    addr = client_addr c;
    password = c.password;
    db = c.db;
    max_retries = c.max_retries;
  })
]

-- What the reservation service's main gives to it.
abbrev pub reservation_client : RedisConfig → ClientConfig
reservation_client r = record {
  host = r.addr;
  port = pos 6379;
  password = "";
  db = pos 0;
  max_retries = pos 0;
}

-- Where Load accepts the settings, a pool is asked for exactly if host, name and user are given.
pub pool_validate_iff :
    {Float : Type 0} (cfg : Config Float)
    → validate cfg ≡ none
    → (pool_validate (pool_of cfg.database) ≡ none)
      ↔ ((cfg.database.host ≢ "") × (cfg.database.name ≢ "") × (cfg.database.user ≢ ""))
unfolding pool_validate validate missing
pool_validate_iff cfg h = ground (
  arith,
  eq_iff cfg.database.host "",
  eq_iff cfg.database.name "",
  eq_iff cfg.database.user "",
  eq_iff cfg.database.password "",
)
