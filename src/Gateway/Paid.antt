-- ===== src/Gateway/Paid.antt =====
-- ConfirmBookingPayment of services/gateway/internal/handler/extra.go past its tests: what
-- `confirm_paid` writes, and how the lock is extended.
use parkirpintar.Common.{
  ◌≡◌, refl, ◌+◌, ◌≤◌, ◌<◌, inl, inr, Option-cases, ◌&&◌, List, none, some, String, ◌==◌, arith,
  eq_iff, if◌then◌else◌,
}
use parkirpintar.Common.Time.{Time, hour}
use parkirpintar.Table.{select, key-select, update_where, find-update_where}
use parkirpintar.World.{Entry, World, ok, err, now, call}
use parkirpintar.Accounts.Http.{HttpError}
use parkirpintar.Shared.Lock.{redis_get}
use parkirpintar.Shared.Holding.{redis_get-set, redis_get-later}
use parkirpintar.Reservation.Domain.{Row, pending, confirmed}
use parkirpintar.Reservation.Repository.{row_id}
use parkirpintar.Gateway.Confirmation.{
  ConfirmAnswer, pay_booking_fee, pay_fee, is_booking_fee, is_pending_row, confirm_row,
  confirm_pending, spot_id_of, redis_expire, extend_lock, hold_spot, confirm_paid,
}
use mathlib.Core.Option

pub redis_get-expire :
    (j k : String) (t u until : Time) (es : List Entry)
    → t ≤ u
    → u < until
    → redis_get j u (redis_expire k t until es)
      ≡ (if k == j then redis_get k t es else redis_get j u es)
unfolding redis_expire
redis_get-expire j k t u until es h live = elim (Option-cases (redis_get k t es)) [
  | inl gone ↦ ground (arith, redis_get-later k t u es h, eq_iff k j)
  | inr (v, held) ↦ ground (arith, redis_get-set j k v u until es, eq_iff k j)
]

-- Extending the lock changes no table.
pub hold_spot-keeps :
    (id : String) (w : World)
    → let w' = (hold_spot id w).1 in
      (w'.env ≡ w.env)
      × (w'.spots ≡ w.spots)
      × (w'.reservations ≡ w.reservations)
      × (w'.invoices ≡ w.invoices)
      × (w'.transactions ≡ w.transactions)
      × (w'.published ≡ w.published)
unfolding hold_spot spot_id_of extend_lock call
hold_spot-keeps id w = ground arith

pub confirm_paid_success :
    (id : String) (a : ConfirmAnswer) (w w' : World)
    → confirm_paid id w ≡ (ok a, w')
    → (a.reservation_id ≡ id)
      × (a.status ≡ confirmed)
      × (a.expires_at ≡ a.confirmed_at + hour)
      × (w'.reservations
          ≡ update_where (is_pending_row id) (confirm_row a.confirmed_at) w.reservations)
      × (w'.spots ≡ w.spots)
      × (w'.transactions ≡ w.transactions)
      × (w'.published ≡ w.published)
unfolding confirm_paid pay_booking_fee confirm_pending hold_spot now call
confirm_paid_success id a w w' h = grind (arith, hold_spot-keeps)

pub confirm_paid_failure :
    (id : String) (e : HttpError) (w w' : World)
    → confirm_paid id w ≡ (err e, w')
    → (w'.reservations ≡ w.reservations)
      × (w'.spots ≡ w.spots)
      × (w'.transactions ≡ w.transactions)
      × (w'.redis ≡ w.redis)
      × (w'.published ≡ w.published)
      × (e.code ≡ 500)
unfolding confirm_paid pay_booking_fee confirm_pending hold_spot now call
confirm_paid_failure id e w w' h = grind (arith, hold_spot-keeps)

-- What a row is found as after the update of pending rows.
pub select-confirm_row :
    (id : String) (at : Time) (rows : List Row)
    → select row_id id (update_where (is_pending_row id) (confirm_row at) rows)
      ≡ Option.map
          (λ r. if is_pending_row id r then confirm_row at r else r)
          (select row_id id rows)
unfolding select
select-confirm_row id at rows =
    find-update_where (λ (x : Row). row_id x == id) (is_pending_row id) (confirm_row at)
      (λ x. ground arith) rows

-- The world that the two updates leave.
abbrev pub confirmed_world : String → World → World
confirmed_world id w = record w {
  ticks = w.ticks + 1 + 1 + 1;
  invoices =
      update_where (λ i. i.reservation_id == id && is_booking_fee i.kind)
        (pay_fee (w.env.clock w.ticks)) w.invoices;
  reservations =
      update_where (is_pending_row id) (confirm_row (w.env.clock w.ticks)) w.reservations;
}

pub confirm_paid-up :
    (id : String) (w : World)
    → w.env.fault (w.ticks + 1) ≡ none
    → w.env.fault (w.ticks + 1 + 1) ≡ none
    → confirm_paid id w ≡ (
      ok (record {
        reservation_id = id;
        status = confirmed;
        confirmed_at = w.env.clock w.ticks;
        expires_at = w.env.clock w.ticks + hour;
      }),
      (hold_spot id (confirmed_world id w)).1,
    )
unfolding confirm_paid pay_booking_fee confirm_pending hold_spot now call
confirm_paid-up id w up up' = ground (arith, up, up')

pub confirm_paid_confirms :
    (id : String) (r : Row) (w : World)
    → w.env.fault (w.ticks + 1) ≡ none
    → w.env.fault (w.ticks + 1 + 1) ≡ none
    → select row_id id w.reservations ≡ some r
    → r.status ≡ pending
    → let (answer, w') = confirm_paid id w in
      let at = w.env.clock w.ticks in
      (answer
        ≡ ok (record {
          reservation_id = id;
          status = confirmed;
          confirmed_at = at;
          expires_at = at + hour;
        }))
      × (select row_id id w'.reservations ≡ some (confirm_row at r))
      × (w'.invoices
          ≡ update_where
              (λ i. i.reservation_id == id && is_booking_fee i.kind)
              (pay_fee at)
              w.invoices)
confirm_paid_confirms id r w up up' found waits =
    let (_, _, rows, invoices, _, _) = hold_spot-keeps id (confirmed_world id w) in
    rw (confirm_paid-up id w up up', rows, invoices)
      (
        refl,
        ground (
          arith,
          select-confirm_row id (w.env.clock w.ticks) w.reservations,
          eq_iff r.id id,
          key-select row_id id w.reservations r found,
        ),
        refl,
      )
