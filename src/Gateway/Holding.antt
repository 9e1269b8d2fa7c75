-- ===== src/Gateway/Holding.antt =====
-- How long a spot is held once the booking fee of its reservation is paid: ConfirmBookingPayment of
-- services/gateway/internal/handler/extra.go extends the lock that CreateReservation took.
use parkirpintar.Common.{
  if◌then◌else◌, ℕ, ◌≡◌, ◌≢◌, ap, List, ◌+◌, ◌≤◌, ◌<◌, none, some, Option, String, arith, eq_iff,
  eq_refl,
}
use parkirpintar.Common.Time.{Time, hour}
use parkirpintar.Table.{select, update_where, select-cons}
use parkirpintar.World.{World, ok, err, next_tick, call}
use parkirpintar.Shared.Lock.{redis_get}
use parkirpintar.Reservation.Domain.{Row, AssignmentMode, Spot, Reservation, payment_timeout}
use parkirpintar.Reservation.Repository.{row_id, row_of}
use parkirpintar.Reservation.Usecase.{spot_lock_key, reserve_spot}
use parkirpintar.Reservation.Creation.{
  lock_time, reserve_spot_success, reserve_spot_locks, reserve_spot_held,
}
use parkirpintar.Reservation.Outcomes.{Untouched}
use parkirpintar.Gateway.Confirmation.{
  ConfirmRequest, ConfirmAnswer, hold_spot, spot_id_of, extend_lock, redis_expire, confirm_row,
  is_pending_row, confirm_booking_payment,
}
use parkirpintar.Gateway.Paid.{
  redis_get-expire, confirmed_world, confirm_paid-up, select-confirm_row,
}
use parkirpintar.Gateway.Confirming.{confirm_booking_payment-went}

hold_spot-extends :
    (id : String) (r : Row) (w : World)
    → select row_id id w.reservations ≡ some r
    → r.spot_id ≢ ""
    → w.env.fault w.ticks ≡ none
    → w.env.fault (w.ticks + 1) ≡ none
    → let t = w.env.clock (w.ticks + 1) in
      (hold_spot id w).1.redis ≡ redis_expire (spot_lock_key r.spot_id) t (t + hour) w.redis
unfolding hold_spot spot_id_of extend_lock call
hold_spot-extends id r w found named up up' = ground (arith, eq_iff r.spot_id "")

-- The confirmation of a reservation keeps its spot.
spot-confirm_row :
    (id : String) (at : Time) (rows : List Row) (r : Row)
    → select row_id id rows ≡ some r
    → (x : Row) × (select row_id id (update_where (is_pending_row id) (confirm_row at) rows)
        ≡ some x)
      × (x.spot_id ≡ r.spot_id)
spot-confirm_row id at rows r found = (
  if is_pending_row id r then confirm_row at r else r,
  ground (arith, select-confirm_row id at rows),
  ground arith,
)

-- The instant at which a confirmation extends the lock.
abbrev pub extend_time : World → Time
extend_time w = w.env.clock (w.ticks + 1 + 1 + 1 + 1 + 1)

-- A confirmation, whose calls do not fail, of a reservation whose spot is locked then: the lock is
-- held by whoever holds it for one hour more.
pub confirm_booking_payment_extends :
    (user : Option String) (req : ConfirmRequest) (a : ConfirmAnswer) (w w' : World) (r : Row)
    (holder : String) (t : Time)
    → ((n : ℕ) → w.env.fault n ≡ none)
    → confirm_booking_payment user (some req) w ≡ (ok a, w')
    → select row_id req.reservation_id w.reservations ≡ some r
    → r.spot_id ≢ ""
    → redis_get (spot_lock_key r.spot_id) (extend_time w) w.redis ≡ some holder
    → extend_time w ≤ t
    → t < extend_time w + hour
    → redis_get (spot_lock_key r.spot_id) t w'.redis ≡ some holder
confirm_booking_payment_extends user req a w w' r holder t up h found named held from until =
    let v = next_tick w in
    let id = req.reservation_id in
    let (x, here, same) = spot-confirm_row id (v.env.clock v.ticks) v.reservations r found in
    let extended : (hold_spot id (confirmed_world id v)).1.redis
        ≡ redis_expire (spot_lock_key r.spot_id) (extend_time w) (extend_time w + hour) w.redis =
      rw (← same) (
        hold_spot-extends id x (confirmed_world id v) here (rw same named)
          (up (v.ticks + 1 + 1 + 1)) (up (v.ticks + 1 + 1 + 1 + 1))) in
    ground (
      arith,
      confirm_booking_payment-went user req a w w' h,
      confirm_paid-up id v (up (v.ticks + 1)) (up (v.ticks + 1 + 1)),
      extended,
      redis_get-expire (spot_lock_key r.spot_id) (spot_lock_key r.spot_id) (extend_time w) t
          (extend_time w + hour) w.redis from until,
      eq_refl (spot_lock_key r.spot_id),
    )

-- The spot of a paid booking is held. A driver's reservation of a spot is followed by a confirmation
-- of its payment, whose calls do not fail and which extends the lock before its five minutes are
-- over. Between the two, and after them, anything may run, the charge of the fee among it, that
-- leaves the entry of this spot's lock in Redis as it was and, until the confirmation, the row of the
-- reservation. A later creation for the spot, by whichever driver, that asks for the lock within the
-- hour after the lock is extended, with Redis answering, is refused and changes nothing.
pub booking_holds_spot :
    (driver key driver' key' : String) (mode mode' : AssignmentMode) (spot : Spot)
    (user : Option String) (req : ConfirmRequest) (a : ConfirmAnswer) (w w₁ v v₁ u : World)
    (r : Reservation)
    → spot.spot_id ≢ ""
    → reserve_spot driver key mode spot w ≡ (ok r, w₁)
    → redis_get (spot_lock_key spot.spot_id) (extend_time v) v.redis
      ≡ redis_get (spot_lock_key spot.spot_id) (extend_time v) w₁.redis
    → select row_id r.reservation_id v.reservations ≡ select row_id r.reservation_id w₁.reservations
    → ((n : ℕ) → v.env.fault n ≡ none)
    → confirm_booking_payment user (some req) v ≡ (ok a, v₁)
    → req.reservation_id ≡ r.reservation_id
    → extend_time v < lock_time w + payment_timeout
    → redis_get (spot_lock_key spot.spot_id) (lock_time u) u.redis
      ≡ redis_get (spot_lock_key spot.spot_id) (lock_time u) v₁.redis
    → extend_time v ≤ lock_time u
    → lock_time u < extend_time v + hour
    → u.env.fault (u.ticks + 1) ≡ none
    → ((reserve_spot driver' key' mode' spot u).0 ≡ err "spot unavailable")
      × Untouched u (reserve_spot driver' key' mode' spot u).1
booking_holds_spot driver key driver' key' mode mode' spot user req a w w₁ v v₁ u r named made keys
      rows up paid same soon keys' from until up' =
    let made' = reserve_spot_success driver key mode spot w w₁ r made in
    let held : redis_get (spot_lock_key spot.spot_id) (extend_time v) v.redis
        ≡ some r.reservation_id =
      rw keys (reserve_spot_locks driver key mode spot w w₁ r (extend_time v) made soon) in
    let here : select row_id req.reservation_id v.reservations ≡ some (row_of r) =
      rw (same, rows, made'.2)
        (ground (
          arith,
          select-cons row_id r.reservation_id (row_of r) w.reservations,
          eq_refl r.reservation_id,
        )) in
    let at_spot : (row_of r).spot_id ≡ spot.spot_id =
      ap (λ (x : Reservation). x.spot.spot_id) made'.3 in
    let extended =
      confirm_booking_payment_extends user req a v v₁ (row_of r) r.reservation_id (lock_time u) up
        paid here (rw at_spot named) (rw at_spot held) from until in
    reserve_spot_held driver' key' r.reservation_id mode' spot u up'
      (rw (keys', ← at_spot) extended)
