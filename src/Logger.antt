-- ===== src/Logger.antt =====
-- pkg/logger: logger.go, middleware.go and grpc.go. zerolog is what it writes: an event collects
-- fields, and Msg writes it as a line with its message unless its level is below the logger's. The
-- time that zerolog adds to a line and the format of the lines are left out. The texts that Go's
-- context carries under the package's own keys are `Context`.
pub mod Lines
use parkirpintar.Common.{
  ◌≡◌, ℕ, ◌+◌, Bool, true, false, ◌||◌, List, [], ◌∷◌, ◌++◌, Option, none, some, String, ◌==◌,
  if◌then◌else◌, leb,
}
use parkirpintar.Common.Int.{ℤ, sub_ℕ}
use parkirpintar.World.{World, Result, ok, err, next_tick}

pub data ContextKey : Type 0 where
  trace_id_key request_id_key user_id_key : ContextKey

abbrev same_key : ContextKey → ContextKey → Bool
same_key trace_id_key trace_id_key = true
same_key request_id_key request_id_key = true
same_key user_id_key user_id_key = true
same_key _ _ = false

abbrev pub Context : Type 0
Context = List (ContextKey × String)

-- ctx.Value(key).(string)
unfoldable pub context_value : ContextKey → Context → Option String
context_value key [] = none
context_value key ((k, v) ∷ ctx) = if same_key key k then some v else context_value key ctx

abbrev pub with_request_id : Context → String → Context
with_request_id ctx request_id = (request_id_key, request_id) ∷ ctx

abbrev pub with_user_id : Context → String → Context
with_user_id ctx user_id = (user_id_key, user_id) ∷ ctx

abbrev pub with_trace_id : Context → String → Context
with_trace_id ctx trace_id = (trace_id_key, trace_id) ∷ ctx

abbrev pub or_empty : Option String → String
or_empty none = ""
or_empty (some s) = s

abbrev pub request_id_from_context : Context → String
unfolding context_value
request_id_from_context ctx = or_empty (context_value request_id_key ctx)

abbrev pub user_id_from_context : Context → String
unfolding context_value
user_id_from_context ctx = or_empty (context_value user_id_key ctx)

unfoldable pub is_sensitive_field : String → Bool
is_sensitive_field field =
    (field == "password")
    || (field == "password_hash")
    || (field == "token")
    || (field == "secret")
    || (field == "authorization")

-- A map as the list of its entries.
unfoldable pub mask_sensitive : List (String × String) → List (String × String)
unfolding is_sensitive_field
mask_sensitive [] = []
mask_sensitive ((k, v) ∷ fields) =
    (k, if is_sensitive_field k then "[REDACTED]" else v) ∷ mask_sensitive fields

pub data Level : Type 0 where
  debug_level info_level warn_level error_level fatal_level : Level

-- zerolog's numbers of the levels.
abbrev pub severity : Level → ℕ
severity debug_level = 0
severity info_level = 1
severity warn_level = 2
severity error_level = 3
severity fatal_level = 4

pub data Value : Type 0 where
  text : String → Value
  number : ℕ → Value
  duration : ℤ → Value

-- An event of zerolog, and the line that it becomes.
pub record Event : Type 0 where
  pub level : Level
  pub fields : List (String × Value)

pub record Line : Type 0 where
  pub event : Event
  pub message : String

pub record Logger : Type 0 where
  pub threshold : Level
  pub base : List (String × Value)

-- The fields of logger.Config but the output and its format.
pub record Config : Type 0 where
  pub service : String
  pub level_name : String

-- `parse_level` is zerolog.ParseLevel.
unfoldable pub new : (String → Option Level) → Config → Logger
new parse_level cfg = record {
  threshold = elim (parse_level cfg.level_name) [ none ↦ info_level | some level ↦ level ];
  base = ("service", text cfg.service) ∷ [];
}

abbrev pub with_field : Logger → String → String → Logger
with_field log key value = record log { base = log.base ++ ((key, text value) ∷ []) }

abbrev pub str : String → String → Event → Event
str key value e = record e { fields = e.fields ++ ((key, text value) ∷ []) }

abbrev pub num : String → ℕ → Event → Event
num key value e = record e { fields = e.fields ++ ((key, number value) ∷ []) }

abbrev pub dur : String → ℤ → Event → Event
dur key value e = record e { fields = e.fields ++ ((key, duration value) ∷ []) }

-- A value of the context is a field unless it is empty or not there.
abbrev pub carried : String → Option String → Event → Event
carried key none e = e
carried key (some s) e = if s == "" then e else str key s e

unfoldable pub event_of : Context → Event → Event
unfolding context_value
event_of ctx e = carried "user_id" (context_value user_id_key ctx) (
    carried "request_id" (context_value request_id_key ctx)
      (carried "trace_id" (context_value trace_id_key ctx) e))

-- Debug, Info, Warn, Error and Fatal.
abbrev pub log_at : Level → Logger → Context → Event
log_at level log ctx = event_of ctx (record { level = level; fields = log.base })

-- Msg.
unfoldable pub msg : Logger → String → Event → List Line
msg log message e =
    if leb (severity log.threshold) (severity e.level)
    then record { event = e; message = message } ∷ []
    else []

-- The requests that a request logger sees.
pub record RequestInfo : Type 0 where
  pub http_method : String
  pub path : String
  pub request_id : String
  pub forwarded : String
  pub real_ip : String
  pub remote_addr : String
  pub user_agent : String

unfoldable pub client_ip : RequestInfo → String
client_ip r =
    if r.forwarded == ""
    then (if r.real_ip == "" then r.remote_addr else r.real_ip)
    else r.forwarded

-- responseWriter: the status after the calls of WriteHeader.
unfoldable pub written_status : ℕ → List ℕ → ℕ
written_status status [] = status
written_status status (code ∷ codes) = written_status code codes

abbrev pub level_of : ℕ → Level
level_of status =
    if leb 500 status then error_level else if leb 400 status then warn_level else info_level

-- A request id is the one that came, or a new one.
abbrev pub given_or_new : String → World → String × World
given_or_new id w = if id == "" then (w.env.uuid w.ticks, next_tick w) else (id, w)

pub record Served (A : Type 0) : Type 0 where
  pub request_id_header : String
  pub served : A
  pub lines : List Line

-- HTTPRequestLogger: `next` answers with the codes that it gives to WriteHeader.
unfoldable pub http_request_logger :
    {A : Type 0}
    → Logger
    → RequestInfo
    → Context
    → (Context → World → List ℕ × A × World)
    → World
    → Served A × World
unfolding context_value client_ip written_status msg
http_request_logger log r outer next w =
    let (id, w₁) = given_or_new r.request_id (next_tick w) in
    let ctx = with_request_id outer id in
    let (codes, a, w₂) = next ctx w₁ in
    let latency = sub_ℕ (w₂.env.clock w₂.ticks) (w.env.clock w.ticks) in
    let status = written_status 200 codes in
    let user_id = user_id_from_context ctx in
    let e = str "user_agent" r.user_agent (
      str "ip" (client_ip r) (
        dur "latency" latency (
          num "status" status (
            str "path" r.path (str "method" r.http_method (log_at (level_of status) log ctx)))))) in
    (
      record {
        request_id_header = id;
        served = a;
        lines = msg log "http request" (if user_id == "" then e else str "user_id" user_id e);
      },
      next_tick w₂,
    )

-- requestIDFromMetadata: the values of x-request-id, where there are metadata.
abbrev pub request_id_from_metadata : Option (List String) → String
request_id_from_metadata none = ""
request_id_from_metadata (some []) = ""
request_id_from_metadata (some (v ∷ _)) = v

abbrev pub error_of : {E A : Type 0} → Result E A → Option E
error_of (ok _) = none
error_of (err e) = some e

-- The event that a handler's answer is logged by.
abbrev pub answer_event : {E A : Type 0} → (E → String) → Logger → Context → Result E A → Event
answer_event error_text log ctx (ok _) = log_at info_level log ctx
answer_event error_text log ctx (err e) = str "error" (error_text e) (log_at error_level log ctx)

-- UnaryServerLogger: `code_name` and `error_text` are the status library's reading of the handler's
-- error, which is `none` where it answers.
unfoldable pub unary_server_logger :
    {E A : Type 0}
    → (Option E → String)
    → (E → String)
    → Logger
    → String
    → Option (List String)
    → Context
    → (Context → World → Result E A × World)
    → World
    → (Result E A × List Line) × World
unfolding msg
unary_server_logger code_name error_text log full_method metadata outer handler w =
    let (id, w₁) = given_or_new (request_id_from_metadata metadata) (next_tick w) in
    let ctx = with_request_id outer id in
    let (r, w₂) = handler ctx w₁ in
    let latency = sub_ℕ (w₂.env.clock w₂.ticks) (w.env.clock w.ticks) in
    let e = answer_event error_text log ctx r in
    (
      (
        r,
        msg log "grpc request" (
            dur "latency" latency
              (str "status" (code_name (error_of r)) (str "method" full_method e))),
      ),
      next_tick w₂,
    )
