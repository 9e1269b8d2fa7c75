-- ===== src/Reservation/Creation.antt =====
-- CreateReservation of services/reservation/internal/usecase/usecase.go: the lock that guards a
-- spot, the failures, and the replay of a request by its idempotency key.
use parkirpintar.Common.{
  ◌==◌, List, [], refl, ◌≡◌, ◌+◌, ◌≤◌, ◌<◌, none, some, String, ◌∷◌, arith, eq_iff, eq_refl, false,
}
use parkirpintar.Common.Time.{Time}
use parkirpintar.World.{World, ok, err, now, new_uuid, call}
use parkirpintar.Table.{find, select}
use parkirpintar.Shared.Lock.{acquire, release, redis_get, redis_set, set_nx}
use parkirpintar.Shared.Holding.{release_script-set_nx, set_nx-refused}
use parkirpintar.Shared.Idempotency.{check, save, default_ttl}
use parkirpintar.Reservation.Outcomes.{Untouched}
use parkirpintar.Reservation.Domain.{
  Row, AssignmentMode, VehicleType, Spot, SpotRow, Reservation, payment_timeout,
}
use parkirpintar.Reservation.Repository.{
  row_id, row_of, spot_key, is_taken, insert_reservation, get_by_idempotency_key,
}
use parkirpintar.Reservation.Usecase.{
  spot_lock_key, idempotency_entry, reserve_spot, new_reservation, create_reservation,
}
use parkirpintar.Reservation.Keys.{spot_lock_key-ne-idempotency_entry}

-- The instant at which the lock is asked for by a creation that starts in `w` with the spot chosen.
abbrev pub lock_time : World → Time
lock_time w = w.env.clock (w.ticks + 1)

-- What is not taken is not in the table.
pub is_taken-select :
    (r : Reservation) (rows : List Row)
    → is_taken r rows ≡ false
    → select row_id r.reservation_id rows ≡ none
unfolding is_taken select find
is_taken-select r [] h = refl
is_taken-select r (x ∷ rows) h = ground (arith, is_taken-select r rows)

-- A creation that succeeds found the spot's lock free, and adds the one row of the returned
-- reservation, which is pending for five minutes and whose id and key were not in the table.
pub reserve_spot_success :
    (driver key : String) (mode : AssignmentMode) (spot : Spot) (w w' : World) (r : Reservation)
    → reserve_spot driver key mode spot w ≡ (ok r, w')
    → (redis_get (spot_lock_key spot.spot_id) (lock_time w) w.redis ≡ none)
      × (is_taken r w.reservations ≡ false)
      × (w'.reservations ≡ row_of r ∷ w.reservations)
      × (r ≡ new_reservation (w.env.uuid w.ticks) driver key mode spot r.confirmed_at)
      × (w'.spots ≡ w.spots)
      × (w'.invoices ≡ w.invoices)
      × (w'.transactions ≡ w.transactions)
      × (w'.published ≡ w.published)
      × (w'.env ≡ w.env)
unfolding reserve_spot insert_reservation now new_uuid call acquire set_nx release save
reserve_spot_success driver key mode spot w w' r h = ground arith

-- Until five minutes have passed since the lock was taken, it is held for the reservation.
pub reserve_spot_locks :
    (driver key : String) (mode : AssignmentMode) (spot : Spot) (w w' : World) (r : Reservation)
    (t : Time)
    → reserve_spot driver key mode spot w ≡ (ok r, w')
    → t < lock_time w + payment_timeout
    → redis_get (spot_lock_key spot.spot_id) t w'.redis ≡ some r.reservation_id
unfolding reserve_spot insert_reservation now new_uuid call acquire set_nx release save redis_get
    redis_set select find
reserve_spot_locks driver key mode spot w w' r t h before = ground (
  arith,
  eq_refl (spot_lock_key spot.spot_id),
  eq_iff (idempotency_entry key) (spot_lock_key spot.spot_id),
  spot_lock_key-ne-idempotency_entry spot.spot_id key,
)

-- Where the spot's lock is held and Redis answers, a creation is refused and changes nothing.
pub reserve_spot_held :
    (driver key holder : String) (mode : AssignmentMode) (spot : Spot) (w : World)
    → w.env.fault (w.ticks + 1) ≡ none
    → redis_get (spot_lock_key spot.spot_id) (lock_time w) w.redis ≡ some holder
    → ((reserve_spot driver key mode spot w).0 ≡ err "spot unavailable")
      × Untouched w (reserve_spot driver key mode spot w).1
unfolding reserve_spot insert_reservation now new_uuid call acquire set_nx release save
reserve_spot_held driver key holder mode spot w up held = ground arith

-- After a creation for a spot, a second creation for it that asks for the lock less than five
-- minutes after the first did, with the keys of Redis as the first left them and Redis answering,
-- is refused and changes nothing.
pub reserve_spot_excludes :
    (driver driver' key key' : String) (mode mode' : AssignmentMode) (spot : Spot) (w w' v : World)
    (r : Reservation)
    → reserve_spot driver key mode spot w ≡ (ok r, w')
    → v.redis ≡ w'.redis
    → lock_time v < lock_time w + payment_timeout
    → v.env.fault (v.ticks + 1) ≡ none
    → ((reserve_spot driver' key' mode' spot v).0 ≡ err "spot unavailable")
      × Untouched v (reserve_spot driver' key' mode' spot v).1
reserve_spot_excludes driver driver' key key' mode mode' spot w w' v r h same soon up =
    reserve_spot_held driver' key' r.reservation_id mode' spot v up
      (rw same (reserve_spot_locks driver key mode spot w w' r (lock_time v) h soon))

-- A creation that fails leaves the tables and the messages alone.
pub reserve_spot_failure :
    (driver key : String) (mode : AssignmentMode) (spot : Spot) (w w' : World) (e : String)
    → reserve_spot driver key mode spot w ≡ (err e, w')
    → (w'.spots ≡ w.spots)
      × (w'.reservations ≡ w.reservations)
      × (w'.invoices ≡ w.invoices)
      × (w'.transactions ≡ w.transactions)
      × (w'.published ≡ w.published)
unfolding reserve_spot insert_reservation now new_uuid call acquire release save
reserve_spot_failure driver key mode spot w w' e h = ground arith

-- A creation that fails, and could still release the lock before the lock's end, leaves every key
-- of Redis as it was: each reads as before from the instant on at which the lock was asked for.
pub reserve_spot_failure_releases :
    (driver key : String) (mode : AssignmentMode) (spot : Spot) (w w' : World) (e j : String)
    (t : Time)
    → reserve_spot driver key mode spot w ≡ (err e, w')
    → w.env.fault (w.ticks + 1 + 1 + 1 + 1) ≡ none
    → w.env.clock (w.ticks + 1 + 1 + 1 + 1) < lock_time w + payment_timeout
    → lock_time w ≤ t
    → redis_get j t w'.redis ≡ redis_get j t w.redis
unfolding reserve_spot insert_reservation now new_uuid call acquire release save
reserve_spot_failure_releases driver key mode spot w w' e j t h up soon le =
    let key' = spot_lock_key spot.spot_id in
    let id = w.env.uuid w.ticks in
    let until = lock_time w + payment_timeout in
    ground (
      arith,
      set_nx-refused key' id (lock_time w) until w.redis,
      release_script-set_nx j key' id (lock_time w) (w.env.clock (w.ticks + 1 + 1 + 1 + 1)) t until
          w.redis,
    )

-- A request repeated with the same idempotency key within 24 hours of the first one's being saved
-- returns the reservation that the first one created, whatever else it asks for, and changes
-- nothing. Between the two, anything may run that leaves as they were the entry of this key in Redis
-- and the row that has the key; the spot is in the table, and the saving of the key, its reading and
-- the query do not fail.
pub create_reservation_replay :
    (driver driver' key spot_id' : String) (vt : VehicleType) (mode mode' : AssignmentMode)
    (s : SpotRow) (w w' v : World) (r : Reservation)
    → reserve_spot driver key mode s.spot w ≡ (ok r, w')
    → redis_get (idempotency_entry key) (v.env.clock v.ticks) v.redis
      ≡ redis_get (idempotency_entry key) (v.env.clock v.ticks) w'.redis
    → find (λ (x : Row). x.idempotency_key == key) v.reservations
      ≡ find (λ (x : Row). x.idempotency_key == key) w'.reservations
    → select spot_key s.spot.spot_id v.spots ≡ some s
    → w.env.fault (w.ticks + 1 + 1 + 1 + 1) ≡ none
    → v.env.clock v.ticks < w.env.clock (w.ticks + 1 + 1 + 1 + 1) + default_ttl
    → v.env.fault v.ticks ≡ none
    → v.env.fault (v.ticks + 1) ≡ none
    → ((create_reservation driver' key vt mode' spot_id' v).0 ≡ ok r)
      × Untouched v (create_reservation driver' key vt mode' spot_id' v).1
unfolding reserve_spot insert_reservation now new_uuid call acquire set_nx release save redis_set
    create_reservation check get_by_idempotency_key redis_get select find
create_reservation_replay driver driver' key spot_id' vt mode mode' s w w' v r h same_key same_row
      known saved soon up up' =
    ground (arith, eq_refl key, eq_refl (idempotency_entry key))
