-- ===== src/Presence/Handler.antt =====
-- services/presence/internal/handler/handler.go. A stream is what its Recv gives, one after another,
-- until the end of the list, which is io.EOF; a Send is a request of the environment that may fail.
use parkirpintar.Common.{Bool, false, List, [], ◌∷◌, Option, none, some, String, ◌⧺◌}
use parkirpintar.Common.Time.{Time}
use parkirpintar.Common.Grpc.{Failure, status_error, internal, unimplemented}
use parkirpintar.World.{
  World, Result, ok, err, M, pure, fail, ◌>>=◌, ◌>>◌, map_err, quiet, now, call,
}
use parkirpintar.Presence.Domain.{Coordinate, LocationUpdate}
use parkirpintar.Presence.Repository.{null_str, save_location, get_last_location}

pub record StreamRequest : Type 0 where
  pub driver_id : String
  pub session_id : String
  pub reservation_id : String
  pub coordinate : Option Coordinate
  pub recorded_at : Option Time

pub data Frame : Type 0 where
  receives : StreamRequest → Frame
  fails : String → Frame

pub record Ack : Type 0 where
  pub driver_id : String
  pub event_at : Time
  pub in_geofence : Bool

abbrev coordinate_of : Option Coordinate → Coordinate
coordinate_of none = record { latitude = 0; longitude = 0; accuracy = 0 }
coordinate_of (some c) = c

abbrev time_of : Time → Option Time → Time
time_of t none = t
time_of t (some u) = u

abbrev pub update_of : StreamRequest → Time → LocationUpdate
update_of req t = record {
  driver_id = req.driver_id;
  session_id = null_str req.session_id;
  reservation_id = null_str req.reservation_id;
  coordinate = coordinate_of req.coordinate;
  recorded_at = time_of t req.recorded_at;
}

-- One round of the loop: the acknowledgement that is sent. An error of the table is only logged.
unfoldable pub acknowledge : StreamRequest → M Failure Ack
acknowledge req = do
  t ← now
  quiet (save_location (update_of req t))
  at ← now
  _ ← map_err (λ e. status_error internal ("send error: " ⧺ e)) call
  pure (record { driver_id = req.driver_id; event_at = at; in_geofence = false })

-- The acknowledgements that were sent, and how the stream ended.
unfoldable pub stream_location : List Frame → World → List Ack × Result Failure (Unit {0}) × World
stream_location [] w = ([], ok tt, w)
stream_location (fails e ∷ frames) w = ([], err (status_error internal ("recv error: " ⧺ e)), w)
stream_location (receives req ∷ frames) w =
    let (sent, w') = acknowledge req w in
    let (acks, end, w'') = stream_location frames w' in
    elim sent [ ok ack ↦ (ack ∷ acks, end, w'') | err e ↦ ([], err e, w') ]

pub record LastLocation : Type 0 where
  pub driver_id : String
  pub coordinate : Coordinate
  pub recorded_at : Time

-- `none` is the answer with HasLocation false.
unfoldable pub handle_last_location : String → M Failure (Option LastLocation)
handle_last_location driver = do
  found ← map_err (status_error internal) (get_last_location driver)
  elim found [
    | none ↦ pure none
    | some u ↦ pure (
        some (record {
          driver_id = u.driver_id;
          coordinate = u.coordinate;
          recorded_at = u.recorded_at;
        }))
  ]

unfoldable pub check_geofence : {A : Type 0} → M Failure A
check_geofence = fail (status_error unimplemented "spot coordinates not yet available")
