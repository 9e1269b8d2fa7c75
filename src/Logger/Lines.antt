-- ===== src/Logger/Lines.antt =====
-- What the request loggers of pkg/logger write, with a logger that main makes.
use parkirpintar.Common.{
  ◌≡◌, refl, ℕ, ◌≤◌, List, [], ◌∷◌, Option, none, some, String, ◌==◌, if◌then◌else◌, arith,
}
use parkirpintar.World.{World, Result, next_tick}
use parkirpintar.Logger.{
  Context, Level, Value, text, number, Event, Line, Logger, Config, new, severity, level_of,
  written_status, given_or_new, with_request_id, RequestInfo, http_request_logger, event_of,
  unary_server_logger, request_id_from_metadata, error_of, answer_event, info_level, error_level,
  Event, context_value, msg,
}

-- The first field of that name.
unfoldable pub field : String → List (String × Value) → Option Value
field name [] = none
field name ((k, v) ∷ fields) = if k == name then some v else field name fields

-- The line of a request with this id and status: its level, and what its fields name.
abbrev pub IsLineOf : String → ℕ → Line → Type 0
unfolding field
IsLineOf id status l =
    (l.event.level ≡ level_of status)
    × (field "status" l.event.fields ≡ some (number status))
    × (field "request_id" l.event.fields ≡ (if id == "" then none else some (text id)))
    × (field "user_id" l.event.fields ≡ none)

msg_written :
    (log : Logger) (message : String) (e : Event)
    → severity log.threshold ≤ severity e.level
    → msg log message e ≡ record { event = e; message = message } ∷ []
unfolding msg
msg_written log message e h = ground arith

level_of_info : (status : ℕ) → 1 ≤ severity (level_of status)
level_of_info status = ground arith

pub http_request_logger_line :
    {A : Type 0}
    → (parse_level : String → Option Level) (cfg : Config) (r : RequestInfo)
    → (next : Context → World → List ℕ × A × World) (w : World)
    → severity (new parse_level cfg).threshold ≤ 1
    → let (id, w₁) = given_or_new r.request_id (next_tick w) in
      let (codes, a, w₂) = next (with_request_id [] id) w₁ in
      let out = (http_request_logger (new parse_level cfg) r [] next w).0 in
      (out.request_id_header ≡ id)
      × (out.served ≡ a)
      × ((l : Line) × (out.lines ≡ l ∷ []) × IsLineOf id (written_status 200 codes) l)
unfolding http_request_logger new field event_of context_value
http_request_logger_line parse_level cfg r next w low =
    let p = given_or_new r.request_id (next_tick w) in
    let status = written_status 200 (next (with_request_id [] p.0) p.1).0 in
    (
      refl,
      refl,
      (
        _,
        msg_written (new parse_level cfg) _ _ (ground (arith, level_of_info status)),
        ground arith,
      ),
    )

-- The line of a call: an error's level exactly where the handler fails.
abbrev pub IsCallLine : {E A : Type 0} → String → String → Result E A → Line → Type 0
unfolding field
IsCallLine id code r l =
    (l.event.level ≡ (elim (error_of r) [ none ↦ info_level | some _ ↦ error_level ]))
    × (field "status" l.event.fields ≡ some (text code))
    × (field "request_id" l.event.fields ≡ (if id == "" then none else some (text id)))

severity-answer_event :
    {E A : Type 0}
    → (error_text : E → String) (log : Logger) (ctx : Context) (r : Result E A)
    → severity log.threshold ≤ 1
    → severity log.threshold ≤ severity (answer_event error_text log ctx r).level
unfolding event_of context_value
severity-answer_event error_text log ctx r low = ground arith

pub unary_server_logger_line :
    {E A : Type 0}
    → (code_name : Option E → String) (error_text : E → String)
      (parse_level : String → Option Level)
    → (cfg : Config) (full_method : String) (metadata : Option (List String))
    → (handler : Context → World → Result E A × World) (w : World)
    → severity (new parse_level cfg).threshold ≤ 1
    → let (id, w₁) = given_or_new (request_id_from_metadata metadata) (next_tick w) in
      let (r, w₂) = handler (with_request_id [] id) w₁ in
      let out =
        (unary_server_logger code_name error_text
          (new parse_level cfg)
          full_method
          metadata
          []
          handler
          w).0 in
      (out.0 ≡ r) × ((l : Line) × (out.1 ≡ l ∷ []) × IsCallLine id (code_name (error_of r)) r l)
unfolding unary_server_logger new field event_of context_value
unary_server_logger_line code_name error_text parse_level cfg full_method metadata handler w low =
    let p = given_or_new (request_id_from_metadata metadata) (next_tick w) in
    let r = (handler (with_request_id [] p.0) p.1).0 in
    (
      refl,
      (
        _,
        msg_written (new parse_level cfg) _ _
            (severity-answer_event error_text (new parse_level cfg) (with_request_id [] p.0) r low),
        ground arith,
      ),
    )
