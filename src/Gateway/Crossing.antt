-- ===== src/Gateway/Crossing.antt =====
-- The expiry job of the reservation service and a confirmation at the gateway that cross:
-- ExpireReservations of services/reservation/internal/usecase/usecase.go lists what is overdue and
-- then writes by the id alone; ConfirmBookingPayment of services/gateway/internal/handler/extra.go,
-- which runs in another process, may come between.
use parkirpintar.Common.{
  ◌<◌, Bool-cases, ◌≡◌, refl, List, [], ◌∷◌, Option, none, some, inl, inr, String, arith, eq_iff,
  eq_refl, Option-cases,
}
use parkirpintar.Common.Time.{Time}
use parkirpintar.Table.{where_, select, select-update, key-select}
use parkirpintar.World.{World, call, ok, M, ◌>>=◌, wrap, now}
use parkirpintar.Reservation.Domain.{
  SpotRow, Row, Reservation, ReservationStatus, pending, confirmed, expired,
}
use parkirpintar.Reservation.Repository.{
  row_id, spot_key, join, join_all, list_expired_reservations,
}
use parkirpintar.Reservation.Usecase.{expire_one, expire_all, expire_reservations}
use parkirpintar.Reservation.Expiry.{is_over, expire_row, expire_one-table, expire_all-cons}
use parkirpintar.Gateway.Confirmation.{
  ConfirmRequest, ConfirmAnswer, confirm_row, confirm_booking_payment,
}
use parkirpintar.Gateway.Confirming.{confirm_booking_payment_success}
use parkirpintar.Gateway.Paid.{select-confirm_row}
use mathlib.Core.Option

-- ExpireReservations up to its loop.
unfoldable pub list_overdue : M String (List Reservation)
list_overdue = do t ← now; wrap "list expired: " (list_expired_reservations t)

-- With nothing between them the list and the loop are ExpireReservations.
pub expire_reservations-halves :
    (w : World) → expire_reservations w ≡ (list_overdue >>= expire_all) w
unfolding expire_reservations list_overdue
expire_reservations-halves w = ground arith

abbrev pub status_in : String → World → Option ReservationStatus
status_in id w = Option.map (λ (x : Row). x.status) (select row_id id w.reservations)

expire_one-expires :
    (r : Reservation) (w : World) (x : Row)
    → w.env.fault w.ticks ≡ none
    → select row_id r.reservation_id w.reservations ≡ some x
    → status_in r.reservation_id (expire_one r w).1 ≡ some expired
expire_one-expires r w x up found = ground (
  arith,
  expire_one-table r w,
  select-update row_id expire_row (λ y. refl) r.reservation_id r.reservation_id w.reservations,
  eq_refl r.reservation_id,
)

-- A round of the loop, of whatever reservation and whether its update fails or not, leaves an
-- expired reservation expired.
expire_one-stays :
    (r : Reservation) (id : String) (w : World)
    → status_in id w ≡ some expired
    → status_in id (expire_one r w).1 ≡ some expired
expire_one-stays r id w h = elim (Option-cases (w.env.fault w.ticks)) [
  | inl up ↦ ground (
    arith,
    expire_one-table r w,
    select-update row_id expire_row (λ y. refl) id r.reservation_id w.reservations,
  )
  | inr (e, down) ↦ ground (arith, expire_one-table r w)
]

expire_all-stays :
    (rs : List Reservation) (id : String) (w : World)
    → status_in id w ≡ some expired
    → status_in id (expire_all rs w).1 ≡ some expired
unfolding expire_all
expire_all-stays [] id w h = h
expire_all-stays (r ∷ rs) id w h =
    rw (expire_all-cons r rs w)
      (expire_all-stays rs id (expire_one r w).1 (expire_one-stays r id w h))

-- What the list begins with has an end before the instant.
head_over :
    (t : Time) (spots : List SpotRow) (rows : List Row) (r : Reservation) (rs : List Reservation)
    → join_all spots (where_ (is_over t) rows) ≡ r ∷ rs
    → r.expires_at < t
unfolding join_all join where_
head_over t spots [] r rs h = absurd (ground (arith, h))
head_over t spots (x ∷ rows) r rs h = elim (Bool-cases (is_over t x)) [
  | inl over ↦ elim (Option-cases (select spot_key x.spot_id spots)) [
    | inl gone ↦ head_over t spots rows r rs (ground (arith, h, over, gone))
    | inr (s, found) ↦ ground (arith, h, over, found)
  ]
  | inr fine ↦ head_over t spots rows r rs (ground (arith, h, fine))
]

list_overdue-over :
    (w v : World) (r : Reservation) (rs : List Reservation)
    → list_overdue w ≡ (ok (r ∷ rs), v)
    → join_all w.spots (where_ (is_over (w.env.clock w.ticks)) w.reservations) ≡ r ∷ rs
unfolding list_overdue list_expired_reservations now call
list_overdue-over w v r rs h = ground (arith, h)

-- A paid reservation that expires. The job lists a reservation; a confirmation of its payment is
-- answered while it is still pending; then the job's loop runs, and its first update does not fail.
-- The reservation's time was over when the job began; after the confirmation it is confirmed, and
-- after the loop it is expired.
pub paid_then_expired :
    (user : Option String) (req : ConfirmRequest) (a : ConfirmAnswer) (r : Reservation)
    (rs : List Reservation) (x : Row) (w v v' : World)
    → list_overdue w ≡ (ok (r ∷ rs), v)
    → confirm_booking_payment user (some req) v ≡ (ok a, v')
    → req.reservation_id ≡ r.reservation_id
    → select row_id r.reservation_id v.reservations ≡ some x
    → x.status ≡ pending
    → v'.env.fault v'.ticks ≡ none
    → (r.expires_at < w.env.clock w.ticks)
      × (status_in r.reservation_id v' ≡ some confirmed)
      × (status_in r.reservation_id (expire_all (r ∷ rs) v').1 ≡ some expired)
paid_then_expired user req a r rs x w v v' lists pays same found waits up =
    let s = confirm_booking_payment_success user req a v v' pays in
    let here : select row_id r.reservation_id v'.reservations
        ≡ some (confirm_row a.confirmed_at x) =
      ground (
        arith,
        s.4,
        same,
        select-confirm_row r.reservation_id a.confirmed_at v.reservations,
        key-select row_id r.reservation_id v.reservations x found,
        eq_iff x.id r.reservation_id,
      ) in
    (
      head_over (w.env.clock w.ticks) w.spots w.reservations r rs
          (list_overdue-over w v r rs lists),
      rw here refl,
      rw (expire_all-cons r rs v') (
          expire_all-stays rs r.reservation_id (expire_one r v').1
            (expire_one-expires r v' _ up here)),
    )
