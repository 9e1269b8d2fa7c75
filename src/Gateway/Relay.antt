-- ===== src/Gateway/Relay.antt =====
-- StreamMyLocation of services/gateway/internal/handler/handler.go: a driver's stream of locations is
-- passed on to services/presence one request at a time, and each acknowledgement back. A stream is
-- what its Recv gives, to the end of the list, which is io.EOF; opening the stream behind, each
-- Send, its Recv and CloseSend are requests of the environment that may fail. The gateway's main
-- installs no interceptor for streams, so that the program itself calls it with no user.
use parkirpintar.Common.{
  ◌≡◌, ℕ, ◌+◌, Bool, false, List, [], ◌∷◌, map, Option, none, some, String, arith,
}
use parkirpintar.Common.Time.{Time}
use parkirpintar.Common.Grpc.{Failure, status_error, unavailable, unauthenticated}
use parkirpintar.World.{World, next_tick, Result, ok, err, M, pure, ◌>>=◌, map_err, now, call}
use parkirpintar.Presence.Domain.{Coordinate, LocationUpdate}
use parkirpintar.Presence.Repository.{save_location}
use parkirpintar.Presence.Handler.{StreamRequest, update_of, acknowledge}

pub record MyLocation : Type 0 where
  pub session_id : String
  pub reservation_id : String
  pub coordinate : Option Coordinate
  pub recorded_at : Option Time

pub data Arrival : Type 0 where
  arrives : MyLocation → Arrival
  breaks : Failure → Arrival

-- What is sent on: the driver is the user.
abbrev pub relayed : String → MyLocation → StreamRequest
relayed driver l = record {
  driver_id = driver;
  session_id = l.session_id;
  reservation_id = l.reservation_id;
  coordinate = l.coordinate;
  recorded_at = l.recorded_at;
}

abbrev stream_call : M Failure Time
stream_call = map_err (status_error unavailable) call

-- One round of the loop past stream.Recv: whether the acknowledgement says that the driver is in the
-- geofence.
unfoldable pub relay : String → MyLocation → M Failure Bool
relay driver l = do
  _ ← stream_call
  ack ← acknowledge (relayed driver l)
  _ ← stream_call
  _ ← stream_call
  pure ack.in_geofence

-- The acknowledgements that were sent, and how the stream ended.
unfoldable pub relay_all :
    String → List Arrival → World → List Bool × Result Failure (Unit {0}) × World
relay_all driver [] w =
    let (r, w') = stream_call w in ([], elim r [ ok _ ↦ ok tt | err e ↦ err e ], w')
relay_all driver (breaks e ∷ ls) w = ([], err e, w)
relay_all driver (arrives l ∷ ls) w =
    let (sent, w') = relay driver l w in
    let (acks, end, w'') = relay_all driver ls w' in
    elim sent [ ok ack ↦ (ack ∷ acks, end, w'') | err e ↦ ([], err e, w') ]

unfoldable pub stream_my_location :
    Option String → List Arrival → World → List Bool × Result Failure (Unit {0}) × World
stream_my_location none ls w = ([], err (status_error unauthenticated "missing user id"), w)
stream_my_location (some driver) ls w =
    let (opened, w') = stream_call w in
    let (acks, end, w'') = relay_all driver ls w' in
    elim opened [ ok _ ↦ (acks, end, w'') | err e ↦ ([], err e, w') ]

-- What the stream stores where no call fails, the newest first.
abbrev pub relayed_rows :
    String → (ℕ → Time) → ℕ → List MyLocation → List LocationUpdate → List LocationUpdate
relayed_rows driver clock n [] us = us
relayed_rows driver clock n (l ∷ ls) us =
    relayed_rows driver clock (n + 1 + 1 + 1 + 1 + 1 + 1 + 1) ls
      (update_of (relayed driver l) (clock (n + 1)) ∷ us)

abbrev pub unmoved : List MyLocation → List Bool
unmoved [] = []
unmoved (_ ∷ ls) = false ∷ unmoved ls

abbrev after : String → MyLocation → World → World
after driver l w = record w {
  ticks = w.ticks + 1 + 1 + 1 + 1 + 1 + 1 + 1;
  locations = update_of (relayed driver l) (w.env.clock (w.ticks + 1)) ∷ w.locations;
}

relay-up :
    (driver : String) (l : MyLocation) (w : World)
    → ((n : ℕ) → w.env.fault n ≡ none)
    → relay driver l w ≡ (ok false, after driver l w)
unfolding relay acknowledge save_location now call
relay-up driver l w up = ground (
  arith,
  up w.ticks,
  up (w.ticks + 1 + 1),
  up (w.ticks + 1 + 1 + 1 + 1),
  up (w.ticks + 1 + 1 + 1 + 1 + 1),
  up (w.ticks + 1 + 1 + 1 + 1 + 1 + 1),
)

relay_all-arrives :
    (driver : String) (l : MyLocation) (ls : List Arrival) (ack : Bool) (w v : World)
    → relay driver l w ≡ (ok ack, v)
    → relay_all driver (arrives l ∷ ls) w
      ≡ (ack ∷ (relay_all driver ls v).0, (relay_all driver ls v).1, (relay_all driver ls v).2)
unfolding relay_all
relay_all-arrives driver l ls ack w v e = ground (arith, e)

relay_all-stores :
    (driver : String) (ls : List MyLocation) (w : World)
    → ((n : ℕ) → w.env.fault n ≡ none)
    → let (acks, end, w') = relay_all driver (map arrives ls) w in
      (acks ≡ unmoved ls)
      × (end ≡ ok tt)
      × (w'.locations ≡ relayed_rows driver w.env.clock w.ticks ls w.locations)
unfolding relay_all call
relay_all-stores driver [] w up = ground (arith, up w.ticks)
relay_all-stores driver (l ∷ ls) w up =
    let rest = relay_all-stores driver ls (after driver l w) up in
    rw
      (relay_all-arrives driver l (map arrives ls) false w (after driver l w)
        (relay-up driver l w up))
      (ground (arith, rest.0), rest.1, rest.2)

stream_my_location-opens :
    (driver : String) (ls : List Arrival) (w : World)
    → w.env.fault w.ticks ≡ none
    → stream_my_location (some driver) ls w ≡ relay_all driver ls (next_tick w)
unfolding stream_my_location call
stream_my_location-opens driver ls w up = ground (arith, up)

-- A driver's stream of locations that comes to its end, where no call fails: every location is
-- stored by the presence service as one of the logged-in driver, with its own time of recording or
-- that of its arrival there, each is acknowledged once, as outside the geofence, and the stream ends
-- without an error.
pub stream_my_location-stores :
    (driver : String) (ls : List MyLocation) (w : World)
    → ((n : ℕ) → w.env.fault n ≡ none)
    → let (acks, end, w') = stream_my_location (some driver) (map arrives ls) w in
      (acks ≡ unmoved ls)
      × (end ≡ ok tt)
      × (w'.locations ≡ relayed_rows driver w.env.clock (w.ticks + 1) ls w.locations)
stream_my_location-stores driver ls w up =
    rw (stream_my_location-opens driver (map arrives ls) w (up w.ticks))
      (relay_all-stores driver ls (next_tick w) up)
