-- ===== src/Accounts/Sessions.antt =====
-- Registering, logging in, and the guard before the handlers of the gateway: what
-- services/gateway/internal/handler/auth.go and pkg/auth/auth.go promise.
use parkirpintar.Common.{
  ℕ, ◌≡◌, ◌≢◌, ◌+◌, ◌*◌, true, false, Option, none, some, inl, inr, String, arith, eq_iff, eq_refl,
}
use parkirpintar.Common.Time.{hour}
use parkirpintar.Table.{select, select-cons}
use parkirpintar.World.{World, Result, Result-split, next_tick, ok, err, M, now, call}
use parkirpintar.Accounts.Domain.{Driver}
use parkirpintar.Accounts.Http.{HttpError}
use parkirpintar.Accounts.Token.{
  Claims, Jwt, parse_at, parse_token, generate_token, trim_prefix, is_public_path, header_user,
  http_middleware, user_id_from_context,
}
use parkirpintar.Accounts.Account.{
  Bcrypt, RegisterRequest, LoginRequest, AuthResponse, email_of, insert_driver, hash_password,
  new_driver, with_vehicle, register_driver, register, get_driver_by_email, login_driver, login,
}
use mathlib.Core.Option

abbrev hashed : String → Result String String
hashed hash = ok hash

generate_token-keeps :
    (jwt : Jwt) (secret user vehicle : String) (expiry : ℕ) (w : World)
    → (generate_token jwt secret user vehicle expiry w).1.drivers ≡ w.drivers
unfolding generate_token now
generate_token-keeps jwt secret user vehicle expiry w = ground arith

insert_driver_success :
    (req : RegisterRequest) (hash id : String) (w : World)
    → (insert_driver req hash w).0 ≡ ok id
    → (select email_of req.email w.drivers ≡ none)
      × (select email_of req.email (insert_driver req hash w).1.drivers
          ≡ some (new_driver req hash id))
unfolding insert_driver call
insert_driver_success req hash id w h = ground (
  arith,
  eq_refl req.email,
  select-cons email_of req.email (new_driver req hash (w.env.uuid w.ticks)) w.drivers,
)

register_driver-hashed :
    (jwt : Jwt) (bcrypt : Bcrypt) (secret hash : String) (expiry : ℕ) (req : RegisterRequest)
    (a : AuthResponse) (w w' : World)
    → bcrypt.generate_from_password w.ticks req.password ≡ ok hash
    → register_driver jwt bcrypt secret expiry req w ≡ (ok a, w')
    → (select email_of req.email w.drivers ≡ none)
      × (select email_of req.email w'.drivers ≡ some (new_driver req hash a.driver_id))
unfolding register_driver hash_password
register_driver-hashed jwt bcrypt secret hash expiry req a w w' made h =
    grind (arith, insert_driver_success req hash a.driver_id, generate_token-keeps)

-- The driver of an email, after a registration past the checks.
register_driver_success :
    (jwt : Jwt) (bcrypt : Bcrypt) (secret : String) (expiry : ℕ) (req : RegisterRequest)
    (a : AuthResponse) (w w' : World)
    → register_driver jwt bcrypt secret expiry req w ≡ (ok a, w')
    → (hash : String) × (bcrypt.generate_from_password w.ticks req.password ≡ ok hash)
      × (select email_of req.email w.drivers ≡ none)
      × (select email_of req.email w'.drivers ≡ some (new_driver req hash a.driver_id))
unfolding register_driver hash_password
register_driver_success jwt bcrypt secret expiry req a w w' h =
    elim (Result-split (bcrypt.generate_from_password w.ticks req.password)) [
      | inl (hash, made) ↦
          (let (new, row) =
              register_driver-hashed jwt bcrypt secret hash expiry req a w w' made h in
            (hash, made, new, row))
      | inr (e, failed) ↦ absurd (ground (arith, failed))
    ]

-- A registration that succeeds was for an email that no driver had, and adds a driver with it and
-- the hash of the password.
pub register_success :
    (jwt : Jwt) (bcrypt : Bcrypt) (secret : String) (expiry : ℕ) (req : RegisterRequest)
    (a : AuthResponse) (w w' : World)
    → register jwt bcrypt secret expiry (some req) w ≡ (ok a, w')
    → (hash : String) × (bcrypt.generate_from_password w.ticks req.password ≡ ok hash)
      × (select email_of req.email w.drivers ≡ none)
      × (select email_of req.email w'.drivers
          ≡ some (new_driver (with_vehicle req) hash a.driver_id))
unfolding register
register_success jwt bcrypt secret expiry req a w w' h =
    register_driver_success jwt bcrypt secret expiry (with_vehicle req) a w w' (ground arith)

-- A login that succeeds is with the password whose hash is stored for the email, and answers that
-- driver's id; it changes nothing.
pub login_success :
    (jwt : Jwt) (bcrypt : Bcrypt) (secret : String) (expiry : ℕ) (req : LoginRequest)
    (a : AuthResponse) (w w' : World)
    → login jwt bcrypt secret expiry (some req) w ≡ (ok a, w')
    → (Option.map
          (λ (d : Driver). bcrypt.matches d.password_hash req.password)
          (select email_of req.email w.drivers)
        ≡ some true)
      × (Option.map (λ (d : Driver). d.driver_id) (select email_of req.email w.drivers)
          ≡ some a.driver_id)
      × (w'.drivers ≡ w.drivers)
unfolding login login_driver get_driver_by_email generate_token now call
login_success jwt bcrypt secret expiry req a w w' h = ground arith

-- The status code of an error.
abbrev pub refusal_code : {A : Type 0} → Result HttpError A → Option ℕ
refusal_code (ok a) = none
refusal_code (err e) = some e.code

-- A request for a path that is not public, which is not refused with 401, reaches the handler with a
-- token that the library accepts at that instant, and as the user of its claims, if they name one.
pub http_middleware_guards :
    {A : Type 0}
    → (jwt : Jwt) (secret path header : String) (next : Option String → M HttpError A)
      (r : Result HttpError A) (w w' : World)
    → is_public_path path ≡ false
    → http_middleware jwt secret path header next w ≡ (r, w')
    → refusal_code r ≢ some 401
    → (c : Claims) × (parse_at jwt secret (trim_prefix "Bearer " header) (w.env.clock w.ticks)
        ≡ ok c)
      × (next (user_id_from_context (some c.user_id)) (next_tick w) ≡ (r, w'))
unfolding http_middleware header_user parse_token now
http_middleware_guards jwt secret path header next r w w' private h other =
    elim (Result-split (parse_at jwt secret (trim_prefix "Bearer " header) (w.env.clock w.ticks))) [
      | inl (c, accepted) ↦ (c, accepted, ground (arith, accepted, eq_iff header ""))
      | inr (e, refused) ↦ absurd (ground (arith, refused))
    ]

register-required :
    (jwt : Jwt) (bcrypt : Bcrypt) (secret : String) (expiry : ℕ) (req : RegisterRequest)
    (a : AuthResponse) (w w' : World)
    → register jwt bcrypt secret expiry (some req) w ≡ (ok a, w')
    → (req.email ≢ "") × (req.password ≢ "")
unfolding register
register-required jwt bcrypt secret expiry req a w w' h =
    ground (arith, eq_iff req.email "", eq_iff req.password "")

login_of_row :
    (jwt : Jwt) (bcrypt : Bcrypt) (secret token : String) (expiry : ℕ) (req : LoginRequest)
    (d : Driver) (v : World)
    → req.email ≢ ""
    → req.password ≢ ""
    → v.env.fault v.ticks ≡ none
    → select email_of req.email v.drivers ≡ some d
    → bcrypt.matches d.password_hash req.password ≡ true
    → jwt.signed_string
        (record {
          user_id = d.driver_id;
          vehicle_type = d.vehicle_type;
          expires_at = v.env.clock (v.ticks + 1) + expiry * hour;
          issued_at = v.env.clock (v.ticks + 1 + 1);
        })
        secret
      ≡ ok token
    → (login jwt bcrypt secret expiry (some req) v).0
      ≡ ok (record {
        driver_id = d.driver_id;
        name = d.name;
        email = req.email;
        token = token;
        vehicle_type = d.vehicle_type;
      })
unfolding login login_driver get_driver_by_email generate_token now call
login_of_row jwt bcrypt secret token expiry req d v named secured up row matches signs =
    ground (arith, eq_iff req.email "", eq_iff req.password "")

-- Who registered can log in. After a registration that succeeds, with the drivers as it left them
-- and the database answering, a login with the same email and password is answered, with the
-- driver's id and name, if bcrypt accepts a password against a hash that it made of it, and the
-- token can be signed.
pub login-register :
    (jwt : Jwt) (bcrypt : Bcrypt) (secret token : String) (expiry : ℕ) (req : RegisterRequest)
    (a : AuthResponse) (w w' v : World)
    → ((n : ℕ) (password hash : String)
        → bcrypt.generate_from_password n password ≡ ok hash
        → bcrypt.matches hash password ≡ true)
    → register jwt bcrypt secret expiry (some req) w ≡ (ok a, w')
    → v.drivers ≡ w'.drivers
    → v.env.fault v.ticks ≡ none
    → jwt.signed_string
        (record {
          user_id = a.driver_id;
          vehicle_type = (with_vehicle req).vehicle_type;
          expires_at = v.env.clock (v.ticks + 1) + expiry * hour;
          issued_at = v.env.clock (v.ticks + 1 + 1);
        })
        secret
      ≡ ok token
    → (login jwt bcrypt secret expiry
        (some (record { email = req.email; password = req.password }))
        v).0
      ≡ ok (record {
        driver_id = a.driver_id;
        name = req.name;
        email = req.email;
        token = token;
        vehicle_type = (with_vehicle req).vehicle_type;
      })
login-register jwt bcrypt secret token expiry req a w w' v sound h same up signs =
    let (hash, made, _, row) = register_success jwt bcrypt secret expiry req a w w' h in
    let (named, secured) = register-required jwt bcrypt secret expiry req a w w' h in
    login_of_row jwt bcrypt secret token expiry
      (record { email = req.email; password = req.password })
      (new_driver (with_vehicle req) hash a.driver_id) v named secured up (rw same row)
      (sound w.ticks req.password hash made) signs
