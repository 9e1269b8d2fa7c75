-- ===== src/Reservation/DoubleBooking.antt =====
-- How long the lock of a spot lasts once its reservation is confirmed, and what follows for the
-- spot: ConfirmReservation asks for the lock anew with SET NX, which does not touch a lock that is
-- held.
use parkirpintar.Common.{
  ℕ, ◌≡◌, refl, ◌≢◌, ◌+◌, ◌≤◌, ◌<◌, ◌&&◌, none, some, false, String, ◌==◌, arith, eq_iff, eq_refl,
}
use parkirpintar.Common.Time.{Time}
use parkirpintar.Table.{select, find, select-cons, select-update}
use parkirpintar.World.{World, ok, now, new_uuid, call}
use parkirpintar.Shared.Lock.{acquire, set_nx, release, redis_get, redis_set}
use parkirpintar.Shared.Idempotency.{check, save}
use parkirpintar.Reservation.Domain.{
  VehicleType, AssignmentMode, user_selected, Spot, SpotRow, Row, Reservation, confirmed,
  is_available, payment_timeout, hold_duration,
}
use parkirpintar.Reservation.Repository.{
  row_id, row_of, get_reservation, update_confirmed, get_spot, is_taken, insert_reservation,
}
use parkirpintar.Reservation.Publisher.{publish}
use parkirpintar.Reservation.Usecase.{
  spot_lock_key, idempotency_entry, choose_spot, reserve_spot, new_reservation, create_fresh,
  create_reservation, confirm_reservation,
}
use parkirpintar.Reservation.Keys.{spot_lock_key-ne-idempotency_entry}
use parkirpintar.Reservation.Creation.{lock_time, is_taken-select, reserve_spot_locks}
use parkirpintar.Reservation.Outcomes.{confirm_reservation_success}

-- A confirmation that succeeds while the spot's lock is held leaves every key of Redis as it was:
-- the lock's end is not moved to the end of the hold.
pub confirm_reservation_keeps_lock :
    (id holder : String) (w w' : World) (r : Reservation)
    → confirm_reservation id w ≡ (ok r, w')
    → redis_get (spot_lock_key r.spot.spot_id) (w.env.clock (w.ticks + 1 + 1 + 1)) w.redis
      ≡ some holder
    → w'.redis ≡ w.redis
unfolding confirm_reservation get_reservation update_confirmed now call acquire set_nx publish
confirm_reservation_keeps_lock id holder w w' r h held = ground arith

-- The lock that a creation takes is gone from five minutes later on.
pub reserve_spot_lock_ends :
    (driver key : String) (mode : AssignmentMode) (spot : Spot) (w w' : World) (r : Reservation)
    (t : Time)
    → reserve_spot driver key mode spot w ≡ (ok r, w')
    → lock_time w + payment_timeout ≤ t
    → redis_get (spot_lock_key spot.spot_id) t w'.redis ≡ none
unfolding reserve_spot insert_reservation now new_uuid call acquire set_nx release save redis_get
    redis_set select find
reserve_spot_lock_ends driver key mode spot w w' r t h after = ground (
  arith,
  eq_refl (spot_lock_key spot.spot_id),
  eq_iff (idempotency_entry key) (spot_lock_key spot.spot_id),
  spot_lock_key-ne-idempotency_entry spot.spot_id key,
)

-- Where no call fails, the spot's row reads available, its lock is gone and the key is new, a
-- driver who selects the spot gets a reservation for it, whatever other reservation holds the spot:
-- every earlier row stays as it was.
pub create_reservation_rebooks :
    (driver key id : String) (vt : VehicleType) (s : SpotRow) (x : Row) (w : World)
    → ((n : ℕ) → w.env.fault n ≡ none)
    → redis_get (idempotency_entry key) (w.env.clock w.ticks) w.redis ≡ none
    → find (λ (o : SpotRow). o.spot.spot_id == s.spot.spot_id && is_available o.status) w.spots
      ≡ some s
    → redis_get (spot_lock_key s.spot.spot_id) (w.env.clock (w.ticks + 1 + 1 + 1)) w.redis ≡ none
    → is_taken
        (new_reservation
          (w.env.uuid (w.ticks + 1 + 1))
          driver
          key
          user_selected
          s.spot
          (w.env.clock (w.ticks + 1 + 1 + 1 + 1)))
        w.reservations
      ≡ false
    → select row_id id w.reservations ≡ some x
    → id ≢ w.env.uuid (w.ticks + 1 + 1)
    → let (answer, w') = create_reservation driver key vt user_selected s.spot.spot_id w in
      let r =
        new_reservation
          (w.env.uuid (w.ticks + 1 + 1))
          driver
          key
          user_selected
          s.spot
          (w.env.clock (w.ticks + 1 + 1 + 1 + 1)) in
      (answer ≡ ok r)
      × (select row_id r.reservation_id w'.reservations ≡ some (row_of r))
      × (select row_id id w'.reservations ≡ some x)
unfolding create_reservation check create_fresh choose_spot get_spot reserve_spot insert_reservation
    now new_uuid call acquire set_nx save
create_reservation_rebooks driver key id vt s x w up miss there gone fresh old other =
    let r =
      new_reservation (w.env.uuid (w.ticks + 1 + 1)) driver key user_selected s.spot
        (w.env.clock (w.ticks + 1 + 1 + 1 + 1)) in
    ground (
      arith,
      up w.ticks,
      up (w.ticks + 1),
      up (w.ticks + 1 + 1 + 1),
      up (w.ticks + 1 + 1 + 1 + 1 + 1),
      up (w.ticks + 1 + 1 + 1 + 1 + 1 + 1),
      select-cons row_id r.reservation_id (row_of r) w.reservations,
      select-cons row_id id (row_of r) w.reservations,
      eq_refl r.reservation_id,
      eq_iff r.reservation_id id,
    )

abbrev pub rebooking : World → String → String → SpotRow → Reservation
rebooking v driver key s =
    new_reservation (v.env.uuid (v.ticks + 1 + 1)) driver key user_selected s.spot
      (v.env.clock (v.ticks + 1 + 1 + 1 + 1))

-- The double booking. A driver reserves a spot, and the reservation is confirmed within five
-- minutes. From five minutes after the lock was taken on, though the confirmed reservation is held
-- for an hour, another driver who selects the spot gets a pending reservation for it beside the
-- confirmed one; no call fails in the second creation, the spot's row reads available and the
-- second driver's key and id are new.
pub confirmed_spot_rebooked :
    (driver key driver' key' : String) (mode : AssignmentMode) (vt : VehicleType) (s : SpotRow)
    (w w₁ w₂ v : World) (r r₂ : Reservation)
    → reserve_spot driver key mode s.spot w ≡ (ok r, w₁)
    → confirm_reservation r.reservation_id w₁ ≡ (ok r₂, w₂)
    → r₂.spot ≡ s.spot
    → w₁.env.clock (w₁.ticks + 1 + 1 + 1) < lock_time w + payment_timeout
    → v.redis ≡ w₂.redis
    → v.reservations ≡ w₂.reservations
    → lock_time w + payment_timeout ≤ v.env.clock (v.ticks + 1 + 1 + 1)
    → ((n : ℕ) → v.env.fault n ≡ none)
    → redis_get (idempotency_entry key') (v.env.clock v.ticks) v.redis ≡ none
    → find (λ (o : SpotRow). o.spot.spot_id == s.spot.spot_id && is_available o.status) v.spots
      ≡ some s
    → is_taken (rebooking v driver' key' s) v.reservations ≡ false
    → let (answer, v') = create_reservation driver' key' vt user_selected s.spot.spot_id v in
      (answer ≡ ok (rebooking v driver' key' s))
      × (select row_id (rebooking v driver' key' s).reservation_id v'.reservations
          ≡ some (row_of (rebooking v driver' key' s)))
      × ((x : Row) × (select row_id r.reservation_id v'.reservations ≡ some x)
          × (x.status ≡ confirmed)
          × (x.expires_at ≡ r₂.confirmed_at + hold_duration))
confirmed_spot_rebooked driver key driver' key' mode vt s w w₁ w₂ v r r₂ made confirms same soon
      keys rows late up miss there fresh =
    let held =
      reserve_spot_locks driver key mode s.spot w w₁ r (w₁.env.clock (w₁.ticks + 1 + 1 + 1)) made
        soon in
    let kept : w₂.redis ≡ w₁.redis =
      confirm_reservation_keeps_lock r.reservation_id r.reservation_id w₁ w₂ r₂ confirms
        (rw same held) in
    let gone : redis_get (spot_lock_key s.spot.spot_id) (v.env.clock (v.ticks + 1 + 1 + 1)) v.redis
        ≡ none =
      rw (keys, kept)
        (reserve_spot_lock_ends driver key mode s.spot w w₁ r (v.env.clock (v.ticks + 1 + 1 + 1))
          made late) in
    let (row, found, was, until, table, _, _, _) =
      confirm_reservation_success r.reservation_id w₁ w₂ r₂ confirms in
    let x = record row {
      status = confirmed;
      confirmed_at = r₂.confirmed_at;
      expires_at = r₂.expires_at;
    } in
    let here : select row_id r.reservation_id v.reservations ≡ some x =
      rw (rows, table)
        (ground (
          arith,
          select-update row_id
              (λ y. record y {
                status = confirmed;
                confirmed_at = r₂.confirmed_at;
                expires_at = r₂.expires_at;
              })
              (λ y. refl) r.reservation_id r.reservation_id w₁.reservations,
          eq_refl r.reservation_id,
        )) in
    let (answer, new, old) =
      create_reservation_rebooks driver' key' r.reservation_id vt s x v up miss there gone fresh
        here
        (λ e. cc (e, here, is_taken-select (rebooking v driver' key' s) v.reservations fresh)) in
    (answer, new, (x, old, refl, until))
