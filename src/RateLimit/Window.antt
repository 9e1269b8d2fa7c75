-- ===== src/RateLimit/Window.antt =====
-- How many requests the limiter of services/gateway/internal/handler/ratelimit.go lets through in
-- any window.
use parkirpintar.Common.{
  ℕ, ◌+◌, ◌≡◌, ◌≤◌, ◌↔◌, false, List, [], ◌∷◌, ◌++◌, String, ◌==◌, if◌then◌else◌, refl, arith,
  eq_iff,
}
use parkirpintar.Common.Time.{Time}
use parkirpintar.RateLimit.{Limiter, size, recent, allow, sweep, new_rate_limiter}

recent-later :
    (w now later : ℕ) (ts : List Time)
    → now ≤ later
    → recent w later (recent w now ts) ≡ recent w later ts
unfolding recent
recent-later w now later [] le = refl
recent-later w now later (t ∷ ts) le = ground (arith, recent-later w now later ts le)

recent-append :
    (w now : ℕ) (ts us : List Time) → recent w now (ts ++ us) ≡ recent w now ts ++ recent w now us
unfolding recent
recent-append w now [] us = refl
recent-append w now (t ∷ ts) us = ground (arith, recent-append w now ts us)

size-append : (ts us : List Time) → size (ts ++ us) ≡ size ts + size us
unfolding size
size-append [] us = ground arith
size-append (t ∷ ts) us = ground (arith, size-append ts us)

-- A later window that reaches as far back holds no more.
size-recent :
    (w now later : ℕ) (ts : List Time)
    → now ≤ later
    → size (recent w later ts) ≤ size (recent w now ts)
unfolding recent size
size-recent w now later [] le = ground arith
size-recent w now later (t ∷ ts) le = ground (arith, size-recent w now later ts le)

size-one : (w now : ℕ) → size (recent w now (now ∷ [])) ≤ 1
unfolding recent size
size-one w now = ground arith

-- What reaches the limiter: a request of a client, or the ticker of cleanup.
pub data Event : Type 0 where
  asks : String → Event
  ticks : Event

-- The limiter after the events, and the instants at which a request of `key` was let through.
unfoldable pub accepted : String → List (Time × Event) → Limiter → List Time → Limiter × List Time
accepted key [] rl past = (rl, past)
accepted key ((now, ticks) ∷ es) rl past = accepted key es (sweep now rl) past
accepted key ((now, asks client) ∷ es) rl past =
    accepted key es (allow client now rl).1 (
      if client == key
      then (if (allow client now rl).0 then past ++ (now ∷ []) else past)
      else past)

-- No event comes before `start` or before an earlier one, nor after `end`.
abbrev pub IsOrdered : Time → Time → List (Time × Event) → Type 0
IsOrdered start end [] = start ≤ end
IsOrdered start end ((now, _) ∷ es) = (start ≤ now) × IsOrdered now end es

-- What the limiter knows of a key at an instant: the recent acceptances, no more than the limit.
abbrev Knows : String → Time → List Time → Limiter → Type 0
Knows key now past rl =
    (recent rl.window now (rl.requests key) ≡ recent rl.window now past)
    × (size (recent rl.window now past) ≤ rl.limit)

Knows-later :
    (key : String) (now later : Time) (past : List Time) (rl : Limiter)
    → now ≤ later
    → Knows key now past rl
    → Knows key later past rl
Knows-later key now later past rl le (same, few) = (
  ground (
    arith,
    same,
    recent-later rl.window now later (rl.requests key) le,
    recent-later rl.window now later past le,
  ),
  ground (arith, few, size-recent rl.window now later past le),
)

sweep-Knows :
    (key : String) (now : Time) (past : List Time) (rl : Limiter)
    → Knows key now past rl
    → Knows key now past (sweep now rl)
unfolding sweep
sweep-Knows key now past rl (same, few) =
    (ground (arith, same, recent-later rl.window now now (rl.requests key)), few)

allow-Knows :
    (key client : String) (now : Time) (past : List Time) (rl : Limiter)
    → Knows key now past rl
    → Knows key now
        (if client == key
          then (if (allow client now rl).0 then past ++ (now ∷ []) else past)
          else past)
        (allow client now rl).1
unfolding allow
allow-Knows key client now past rl (same, few) =
    let valid = recent rl.window now (rl.requests client) in
    let one : List Time = now ∷ [] in
    ground (
      arith,
      same,
      few,
      eq_iff client key,
      recent-later rl.window now now (rl.requests client),
      recent-append rl.window now valid one,
      recent-append rl.window now past one,
      size-append (recent rl.window now past) (recent rl.window now one),
      size-one rl.window now,
    )

allow-settings :
    (client : String) (now : Time) (rl : Limiter)
    → ((allow client now rl).1.window ≡ rl.window) × ((allow client now rl).1.limit ≡ rl.limit)
unfolding allow
allow-settings client now rl = ground arith

accepted-Knows :
    (key : String) (es : List (Time × Event)) (start end : Time) (past : List Time) (rl : Limiter)
    → IsOrdered start end es
    → Knows key start past rl
    → let (rl', past') = accepted key es rl past in
      Knows key end past' rl' × (rl'.window ≡ rl.window) × (rl'.limit ≡ rl.limit)
unfolding accepted sweep
accepted-Knows key [] start end past rl le knows =
    (Knows-later key start end past rl le knows, refl, refl)
accepted-Knows key ((now, ticks) ∷ es) start end past rl (le, more) knows =
    accepted-Knows key es now end past (sweep now rl) more
      (sweep-Knows key now past rl (Knows-later key start now past rl le knows))
accepted-Knows key ((now, asks client) ∷ es) start end past rl (le, more) knows =
    let rl' = (allow client now rl).1 in
    let past' =
      if client == key
      then (if (allow client now rl).0 then past ++ (now ∷ []) else past)
      else past in
    let (later, window, limit) =
      accepted-Knows key es now end past' rl' more
        (allow-Knows key client now past rl (Knows-later key start now past rl le knows)) in
    let (window', limit') = allow-settings client now rl in
    (later, ground (arith, window, window'), ground (arith, limit, limit'))

-- In every window that ends at an instant not before the last event, a client gets no more requests
-- through than the limit, whatever other clients ask and whenever the cleanup runs.
pub accepted-bounded :
    (key : String) (es : List (Time × Event)) (end : Time) (limit window : ℕ)
    → IsOrdered 0 end es
    → size (recent window end (accepted key es (new_rate_limiter limit window) []).1) ≤ limit
unfolding new_rate_limiter recent size accepted
accepted-bounded key es end limit window ordered =
    let (knows, w, l) =
      accepted-Knows key es 0 end [] (new_rate_limiter limit window) ordered (refl, ground arith) in
    ground (arith, knows.1, w, l)

-- After the events, a client's request at an instant not before the last one is refused exactly
-- when the limit of requests that it got through in the window before is reached.
pub accepted-refused_iff :
    (key : String) (es : List (Time × Event)) (end : Time) (limit window : ℕ)
    → IsOrdered 0 end es
    → let (rl, past) = accepted key es (new_rate_limiter limit window) [] in
      ((allow key end rl).0 ≡ false) ↔ (size (recent window end past) ≡ limit)
unfolding new_rate_limiter recent size allow
accepted-refused_iff key es end limit window ordered =
    let (knows, w, l) =
      accepted-Knows key es 0 end [] (new_rate_limiter limit window) ordered (refl, ground arith) in
    ground (arith, knows.0, knows.1, w, l)
