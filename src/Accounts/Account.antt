-- ===== src/Accounts/Account.antt =====
-- services/gateway/internal/handler/auth.go. A body that json does not decode is `none`. bcrypt is
-- a parameter; the n-th request of the environment stands for the salt that it draws.
use Prim.Native.String.{slice, len}
use parkirpintar.Common.{
  ℕ, zero, suc, ◌+◌, ◌-◌, Bool, true, false, ◌||◌, ◌&&◌, ◌∷◌, Option, none, some, String, ◌==◌, leb,
  ltb, if◌then◌else◌,
}
use parkirpintar.Table.{select}
use parkirpintar.World.{
  M, Result, pure, gets, or_fail, ◌>>=◌, ◌>>◌, guard, modify, map_err, next_tick, call,
}
use parkirpintar.Accounts.Domain.{Driver}
use parkirpintar.Accounts.Http.{HttpError, http_error, is_empty}
use parkirpintar.Accounts.Token.{Jwt, generate_token}

pub record Bcrypt : Type 0 where
  pub generate_from_password : ℕ → String → Result String String
  pub matches : String → String → Bool

pub record RegisterRequest : Type 0 where
  pub name : String
  pub email : String
  pub phone : String
  pub password : String
  pub vehicle_type : String

pub record LoginRequest : Type 0 where
  pub email : String
  pub password : String

pub record AuthResponse : Type 0 where
  pub driver_id : String
  pub name : String
  pub email : String
  pub token : String
  pub vehicle_type : String

-- The rounds of the loop that are left, from index i on.
unfoldable pub contains_from : ℕ → ℕ → String → String → Bool
contains_from zero i s sub = false
contains_from (suc rounds) i s sub =
    let rest = contains_from rounds (i + 1) s sub in
    if slice s i (i + len sub) == sub then true else rest

-- The loop has no round where the text is shorter than what is sought.
unfoldable pub contains_str : String → String → Bool
unfolding contains_from
contains_str s sub = contains_from (len s + 1 - len sub) 0 s sub

unfoldable pub contains_text : String → String → Bool
unfolding contains_str
contains_text s sub = leb (len sub) (len s) && (s == sub || (ltb 0 (len s) && contains_str s sub))

unfoldable pub is_duplicate_email : String → Bool
unfolding contains_text
is_duplicate_email e = contains_text e "duplicate key" || contains_text e "unique constraint"

abbrev pub email_of : Driver → String
email_of d = d.email

abbrev is_vehicle_type : String → Bool
is_vehicle_type t = t == "car" || t == "motorcycle"

abbrev pub new_driver : RegisterRequest → String → String → Driver
new_driver req hash id = record {
  driver_id = id;
  name = req.name;
  email = req.email;
  phone = req.phone;
  password_hash = hash;
  vehicle_type = req.vehicle_type;
}

-- INSERT INTO drivers … RETURNING id: the id is the database's; the vehicle type is an enum and the
-- email is unique (migrations/).
unfoldable pub insert_driver : RegisterRequest → String → M String String
insert_driver req hash w =
    (call >>= λ _.
    guard (is_vehicle_type req.vehicle_type) "invalid input value for enum vehicle_type"
    >> gets (λ v. select email_of req.email v.drivers)
    >>= λ taken.
        guard (elim taken [ none ↦ true | some _ ↦ false ])
          "duplicate key value violates unique constraint"
        >> modify (λ v. record v { drivers = new_driver req hash (w.env.uuid w.ticks) ∷ v.drivers })
        >> pure (w.env.uuid w.ticks))
      w

abbrev insert_failed : String → HttpError
insert_failed e =
    if is_duplicate_email e
    then http_error 409 "email already registered"
    else http_error 500 "failed to create driver"

unfoldable pub hash_password : Bcrypt → String → M String String
hash_password bcrypt password w = (bcrypt.generate_from_password w.ticks password, next_tick w)

abbrev pub with_vehicle : RegisterRequest → RegisterRequest
with_vehicle req = record req {
  vehicle_type = if req.vehicle_type == "" then "car" else req.vehicle_type;
}

-- Register of a body with the four texts, and a vehicle type.
unfoldable pub register_driver :
    Jwt → Bcrypt → String → ℕ → RegisterRequest → M HttpError AuthResponse
unfolding is_duplicate_email
register_driver jwt bcrypt secret expiry req = do
  hash ← map_err (λ _. http_error 500 "failed to hash password") (hash_password bcrypt req.password)
  id ← map_err insert_failed (insert_driver req hash)
  token ←
      map_err (λ _. http_error 500 "failed to generate token")
        (generate_token jwt secret id req.vehicle_type expiry)
  pure (record {
    driver_id = id;
    name = req.name;
    email = req.email;
    token = token;
    vehicle_type = req.vehicle_type;
  })

unfoldable pub register :
    Jwt → Bcrypt → String → ℕ → Option RegisterRequest → M HttpError AuthResponse
register jwt bcrypt secret expiry body = do
  req ← or_fail body (http_error 400 "invalid request body")
  guard
      (if is_empty req.name || is_empty req.email || is_empty req.password || is_empty req.phone
        then false
        else true)
      (http_error 400 "name, email, phone, and password are required")
  register_driver jwt bcrypt secret expiry (with_vehicle req)

-- SELECT … FROM drivers WHERE email = …
unfoldable pub get_driver_by_email : String → M String Driver
get_driver_by_email email = do
  _ ← call
  found ← gets (λ w. select email_of email w.drivers)
  or_fail found "no rows in result set"

unfoldable pub login_driver : Jwt → Bcrypt → String → ℕ → LoginRequest → M HttpError AuthResponse
login_driver jwt bcrypt secret expiry req = do
  d ← map_err (λ _. http_error 401 "invalid email or password") (get_driver_by_email req.email)
  guard (bcrypt.matches d.password_hash req.password) (http_error 401 "invalid email or password")
  token ←
      map_err (λ _. http_error 500 "failed to generate token")
        (generate_token jwt secret d.driver_id d.vehicle_type expiry)
  pure (record {
    driver_id = d.driver_id;
    name = d.name;
    email = req.email;
    token = token;
    vehicle_type = d.vehicle_type;
  })

unfoldable pub login : Jwt → Bcrypt → String → ℕ → Option LoginRequest → M HttpError AuthResponse
login jwt bcrypt secret expiry body = do
  req ← or_fail body (http_error 400 "invalid request body")
  guard (if is_empty req.email || is_empty req.password then false else true)
      (http_error 400 "email and password are required")
  login_driver jwt bcrypt secret expiry req
