-- ===== src/Reservation/Repository.antt =====
-- services/reservation/internal/repository/repository.go: each query over the tables of the world.
-- spot_id is a foreign key, so the JOIN with spots drops no row; ids and idempotency keys are
-- unique (migrations/), so an insertion that repeats one is refused. An error of a query shows when
-- its row is scanned.
use parkirpintar.Common.{
  ℕ, suc, Bool, true, false, ◌&&◌, ◌||◌, List, [], ◌∷◌, Option, none, some, String, ◌==◌, ltb, eqb,
  if◌then◌else◌,
}
use parkirpintar.Common.Time.{Time}
use parkirpintar.Table.{find, where_, select, update}
use parkirpintar.World.{M, gets, or_fail, ◌>>=◌, ◌>>◌, guard, modify, wrap, call}
use parkirpintar.Reservation.Domain.{
  VehicleType, ReservationStatus, pending, confirmed, active, completed, cancelled, vehicle_eq,
  is_available, Spot, Reservation, SpotRow, Row,
}
use mathlib.Core.Option

abbrev pub row_id : Row → String
row_id r = r.id

abbrev pub spot_key : SpotRow → String
spot_key s = s.spot.spot_id

-- scanReservation: a row of the JOIN as a value; a NULL session is the empty text.
abbrev pub scan_reservation : Row → SpotRow → Reservation
scan_reservation r s = record {
  reservation_id = r.id;
  driver_id = r.driver_id;
  spot = s.spot;
  status = r.status;
  assignment_mode = r.assignment_mode;
  confirmed_at = r.confirmed_at;
  expires_at = r.expires_at;
  check_in_at = r.check_in_at;
  check_out_at = r.check_out_at;
  cancelled_at = r.cancelled_at;
  session_id = elim r.session_id [ none ↦ "" | some s ↦ s ];
  idempotency_key = r.idempotency_key;
}

-- JOIN spots s ON s.id = r.spot_id
unfoldable pub join : List SpotRow → Option Row → Option Reservation
join spots none = none
join spots (some r) = Option.map (scan_reservation r) (select spot_key r.spot_id spots)

unfoldable pub join_all : List SpotRow → List Row → List Reservation
unfolding join
join_all spots [] = []
join_all spots (r ∷ rows) =
    let rest = join_all spots rows in elim (join spots (some r)) [ none ↦ rest | some v ↦ v ∷ rest ]

abbrev pub no_rows : String
no_rows = "no rows in result set"

abbrev pub row_of : Reservation → Row
row_of r = record {
  id = r.reservation_id;
  driver_id = r.driver_id;
  spot_id = r.spot.spot_id;
  status = r.status;
  assignment_mode = r.assignment_mode;
  idempotency_key = r.idempotency_key;
  confirmed_at = r.confirmed_at;
  expires_at = r.expires_at;
  check_in_at = none;
  check_out_at = none;
  cancelled_at = none;
  session_id = none;
}

-- Whether the primary key or the unique idempotency key is taken.
unfoldable pub is_taken : Reservation → List Row → Bool
is_taken r rows =
    elim (find (λ o. o.id == r.reservation_id || o.idempotency_key == r.idempotency_key) rows) [
      | none ↦ false
      | some _ ↦ true
    ]

unfoldable pub insert_reservation : Reservation → M String (Unit {0})
insert_reservation r = do
  _ ← call
  taken ← gets (λ w. is_taken r w.reservations)
  guard (if taken then false else true) "duplicate key value violates unique constraint"
  modify (λ w. record w { reservations = row_of r ∷ w.reservations })

unfoldable pub get_reservation : String → M String Reservation
unfolding join
get_reservation id = wrap "scan reservation: " do
  _ ← call
  found ← gets (λ w. join w.spots (select row_id id w.reservations))
  or_fail found no_rows

abbrev pub holds_driver : ReservationStatus → Bool
holds_driver confirmed = true
holds_driver active = true
holds_driver _ = false

-- No row is no error here.
unfoldable pub get_active_reservation : String → M String (Option Reservation)
unfolding join
get_active_reservation driver_id = wrap "scan reservation: " do
  _ ← call
  gets (λ w.
      join w.spots (find (λ r. r.driver_id == driver_id && holds_driver r.status) w.reservations))

unfoldable pub get_by_idempotency_key : String → M String Reservation
unfolding join
get_by_idempotency_key key = wrap "scan reservation: " do
  _ ← call
  found ← gets (λ w. join w.spots (find (λ r. r.idempotency_key == key) w.reservations))
  or_fail found no_rows

-- UPDATE reservations SET … WHERE id = …
unfoldable pub update_reservation : String → (Row → Row) → M String (Unit {0})
update_reservation id f = do
  _ ← call
  modify (λ w. record w { reservations = update row_id id f w.reservations })

unfoldable pub update_status : String → ReservationStatus → M String (Unit {0})
unfolding update_reservation
update_status id s = update_reservation id (λ r. record r { status = s })

unfoldable pub update_confirmed : String → Time → Time → M String (Unit {0})
unfolding update_reservation
update_confirmed id at until =
    update_reservation id
      (λ r. record r { status = confirmed; confirmed_at = at; expires_at = until })

unfoldable pub update_check_in : String → String → Time → M String (Unit {0})
unfolding update_reservation
update_check_in id session at =
    update_reservation id
      (λ r. record r { status = active; session_id = some session; check_in_at = some at })

unfoldable pub update_check_out : String → Time → M String (Unit {0})
unfolding update_reservation
update_check_out id at =
    update_reservation id (λ r. record r { status = completed; check_out_at = some at })

unfoldable pub update_cancelled : String → Time → M String (Unit {0})
unfolding update_reservation
update_cancelled id at =
    update_reservation id (λ r. record r { status = cancelled; cancelled_at = some at })

-- ORDER BY floor ASC, number ASC
abbrev pub comes_before : Spot → Spot → Bool
comes_before a b = ltb a.floor b.floor || (eqb a.floor b.floor && ltb a.spot_number b.spot_number)

unfoldable pub insert_sorted : Spot → List Spot → List Spot
insert_sorted s [] = s ∷ []
insert_sorted s (t ∷ ts) = if comes_before t s then t ∷ insert_sorted s ts else s ∷ t ∷ ts

unfoldable pub sort_spots : List Spot → List Spot
unfolding insert_sorted
sort_spots [] = []
sort_spots (s ∷ ss) = insert_sorted s (sort_spots ss)

-- SELECT … FROM spots WHERE … with the columns of a Spot.
unfoldable pub spots_where : (SpotRow → Bool) → List SpotRow → List Spot
spots_where p [] = []
spots_where p (s ∷ ss) = let rest = spots_where p ss in if p s then s.spot ∷ rest else rest

abbrev pub is_free : VehicleType → SpotRow → Bool
is_free vt s = vehicle_eq s.spot.vehicle_type vt && is_available s.status

abbrev pub first : {A : Type 0} → List A → Option A
first [] = none
first (a ∷ _) = some a

unfoldable pub find_available_spot : VehicleType → M String (Option Spot)
unfolding spots_where sort_spots
find_available_spot vt = do
  _ ← call
  gets (λ w. first (sort_spots (spots_where (is_free vt) w.spots)))

unfoldable pub get_spot : String → M String (Option Spot)
get_spot spot_id = do
  _ ← call
  gets (λ w.
      Option.map (λ (s : SpotRow). s.spot)
        (find (λ s. s.spot.spot_id == spot_id && is_available s.status) w.spots))

unfoldable pub count_spots : List Spot → ℕ
count_spots [] = 0
count_spots (_ ∷ ss) = suc (count_spots ss)

unfoldable pub count_available : VehicleType → M String ℕ
unfolding spots_where count_spots
count_available vt = do _ ← call; gets (λ w. count_spots (spots_where (is_free vt) w.spots))

-- `floor` 0 asks for every floor.
unfoldable pub list_available_spots : VehicleType → ℕ → M String (List Spot)
unfolding spots_where sort_spots
list_available_spots vt floor = do
  _ ← call
  gets (λ w. sort_spots (
      spots_where (λ s. is_free vt s && (if ltb 0 floor then eqb s.spot.floor floor else true))
        w.spots))

abbrev pub is_waiting : ReservationStatus → Bool
is_waiting confirmed = true
is_waiting pending = true
is_waiting _ = false

unfoldable pub list_expired_reservations : Time → M String (List Reservation)
unfolding join_all
list_expired_reservations before = do
  _ ← call
  gets (λ w.
      join_all w.spots
        (where_ (λ r. is_waiting r.status && ltb r.expires_at before) w.reservations))
