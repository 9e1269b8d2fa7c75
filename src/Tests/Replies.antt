-- ===== src/Tests/Replies.antt =====
-- The choice of a spot, the answers of the handlers, the laws of the lock.
use parkirpintar.Common.{◌≡◌, refl, ◌↔◌, ◌&&◌, [], ◌∷◌, true, some, if◌then◌else◌, ltb, eqb}
use parkirpintar.Common.Int.{pos}
use parkirpintar.Common.Grpc.{nil_dereference}
use parkirpintar.Table.{find, select}
use parkirpintar.World.{World, ok, err, call}
use parkirpintar.Shared.Lock.{redis_get}
use parkirpintar.Reservation.Domain.{SpotRow, Spot, car}
use parkirpintar.Reservation.Repository.{
  find_available_spot, list_available_spots, spots_where, sort_spots, insert_sorted, is_free,
  count_available, count_spots,
}
use parkirpintar.Reservation.Usecase.{get_availability, idempotency_entry}
use parkirpintar.Reservation.Spots.{
  IsFirst, IsSorted, find_available_spot-IsFirst, list_available_spots-IsSorted,
}
use parkirpintar.Reservation.Handler.{
  vehicle_car, proto_to_vehicle_type, handle_check_out, handle_availability, AvailabilityResponse,
}
use parkirpintar.Reservation.Answers.{handle_check_out_cached}
use mathlib.Core.List.{Mem}
use parkirpintar.Tests.{clock_at, spot1, spot2, row1, start}
use parkirpintar.Tests.Desk.{inside, parked_row}

find_test : find_available_spot car start ≡ (ok (some spot2), record start { ticks = 1 })
unfolding find_available_spot spots_where sort_spots insert_sorted call
find_test = refl

list_test : list_available_spots car 1 start ≡ (ok (spot2 ∷ spot1 ∷ []), record start { ticks = 1 })
unfolding list_available_spots spots_where sort_spots insert_sorted call
list_test = refl

find_available_spot-IsFirst_example : IsFirst (some spot2) (spots_where (is_free car) start.spots)
find_available_spot-IsFirst_example =
    find_available_spot-IsFirst car start (record start { ticks = 1 }) (some spot2) find_test

list_available_spots-IsSorted_example :
    IsSorted (spot2 ∷ spot1 ∷ [])
    × ((s : Spot)
        → Mem s (spot2 ∷ spot1 ∷ [])
          ↔ ∥ (
              (r : SpotRow) × Mem r start.spots
              × ((is_free car r && (if ltb 0 1 then eqb r.spot.floor 1 else true)) ≡ true)
              × (r.spot ≡ s)) ∥₁)
list_available_spots-IsSorted_example =
    list_available_spots-IsSorted car 1 start (record start { ticks = 1 }) (spot2 ∷ spot1 ∷ [])
      list_test

-- Alice's key of the creation, used again for her check-out.
abbrev reused : World
reused = record inside {
  redis = record { key = "idempotency:k1"; value = "r"; expires = clock_at 9000 } ∷ [];
}

handle_check_out_cached_example :
    ((handle_check_out "r" "alice" "k1" reused).0 ≡ err nil_dereference)
    × ((handle_check_out "r" "alice" "k1" reused).1.reservations ≡ reused.reservations)
unfolding redis_get select find idempotency_entry
handle_check_out_cached_example =
    handle_check_out_cached "r" "alice" "k1" "r" parked_row row1 reused refl refl refl refl refl
      refl refl

abbrev room : AvailabilityResponse
room = record {
  vehicle_type = vehicle_car;
  total_capacity = 150;
  available_spots = 2;
  occupied_spots = pos 148;
  reserved_spots = 0;
  is_available = true;
}

availability_test : handle_availability vehicle_car start ≡ (ok room, record start { ticks = 1 })
unfolding handle_availability get_availability count_available count_spots spots_where call
    proto_to_vehicle_type
availability_test = refl
