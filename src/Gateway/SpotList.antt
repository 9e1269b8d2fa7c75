-- ===== src/Gateway/SpotList.antt =====
-- ListAvailableSpots of services/gateway/internal/handler/extra.go, which reads the table of spots
-- itself. The vehicle type and the floor are texts that PostgreSQL reads, the first as a value of
-- the enum vehicle_type, the second as a smallint by `read_floor`. A text that it does not read is
-- an error of the rows, which the handler does not look at: there are none then.
use Prim.Native.Char.{code}
use parkirpintar.Common.{
  ℕ, ◌+◌, ◌≡◌, ◌≢◌, ◌<◌, Bool, true, false, ◌&&◌, List, [], Option, none, some, String, ◌==◌, arith,
  eq_iff, eqb, leb, ltb, if◌then◌else◌,
}
use parkirpintar.Common.Int.{ℤ, pos, negsuc}
use parkirpintar.World.{World, M, ok, pure, gets, ◌>>=◌, map_err, call}
use parkirpintar.Accounts.Http.{HttpError, http_error}
use parkirpintar.Accounts.Token.{trim_prefix}
use parkirpintar.Reservation.Domain.{VehicleType, car, motorcycle, Spot, SpotRow}
use parkirpintar.Reservation.Repository.{
  is_free, spots_where, sort_spots, count_spots, list_available_spots,
}

abbrev lower_code : ℕ → ℕ
lower_code c = if leb b'A' c && leb c b'Z' then c + 32 else c

-- strings.ToLower(s) == t, for a text t of small ASCII letters but i and k.
unfoldable pub lowers_to : String → String → Bool
lowers_to String.[] String.[] = true
lowers_to (String.◌∷◌ c s) (String.◌∷◌ d t) = eqb (lower_code (code c)) (code d) && lowers_to s t
lowers_to _ _ = false

-- The vehicle type that the query's text stands for, if it stands for one.
unfoldable pub vehicle_of : String → Option VehicleType
unfolding trim_prefix lowers_to
vehicle_of text =
    let name = trim_prefix "VEHICLE_TYPE_" (if text == "" then "car" else text) in
    if lowers_to name "car"
    then some car
    else if lowers_to name "motorcycle"
    then some motorcycle
    else none

-- floor = $2
abbrev pub is_floor : ℤ → Spot → Bool
is_floor (pos n) s = eqb s.floor n
is_floor (negsuc _) s = false

-- The floor that the query asks for: `none` is a text that is no number, `some none` every floor.
unfoldable pub floor_of : (String → Option ℤ) → String → Option (Option ℤ)
floor_of read_floor text =
    if text == ""
    then some none
    else elim (read_floor text) [ none ↦ none | some n ↦ some (some n) ]

abbrev pub on_floor : Option ℤ → Spot → Bool
on_floor none s = true
on_floor (some n) s = is_floor n s

-- The rows that are read.
unfoldable pub spot_rows : Option VehicleType → Option (Option ℤ) → List SpotRow → List Spot
unfolding spots_where sort_spots
spot_rows none _ spots = []
spot_rows (some vt) none spots = []
spot_rows (some vt) (some floor) spots =
    sort_spots (spots_where (λ s. is_free vt s && on_floor floor s.spot) spots)

-- The spots and their count.
unfoldable pub http_available_spots :
    (String → Option ℤ) → String → String → M HttpError (List Spot × ℕ)
unfolding vehicle_of floor_of spot_rows count_spots
http_available_spots read_floor vehicle floor = do
  _ ← map_err (λ _. http_error 500 "failed to query spots") call
  rows ← gets (λ w. spot_rows (vehicle_of vehicle) (floor_of read_floor floor) w.spots)
  pure (rows, count_spots rows)

-- A driver is shown the spots that the reservation service lists. Where neither query fails, and the
-- vehicle's text stands for a type and the floor's text is empty, for every floor, or reads as a
-- floor from 1 on, the answer is the list that the service gives for that type and floor, with its
-- length.
pub http_available_spots-same :
    (read_floor : String → Option ℤ) (vehicle text : String) (vt : VehicleType) (floor : ℕ)
    (v w : World)
    → v.env.fault v.ticks ≡ none
    → w.env.fault w.ticks ≡ none
    → v.spots ≡ w.spots
    → vehicle_of vehicle ≡ some vt
    → (floor ≡ 0 → text ≡ "")
    → (0 < floor → (text ≢ "") × (read_floor text ≡ some (pos floor)))
    → let listed = sort_spots (
        spots_where
          (λ s. is_free vt s && (if ltb 0 floor then eqb s.spot.floor floor else true))
          v.spots) in
      ((list_available_spots vt floor v).0 ≡ ok listed)
      × ((http_available_spots read_floor vehicle text w).0 ≡ ok (listed, count_spots listed))
unfolding list_available_spots http_available_spots floor_of spot_rows call
http_available_spots-same read_floor vehicle text vt floor v w up up' same kind every named =
    ground (arith, eq_iff text "")
