-- ===== src/Gateway/Writes.antt =====
-- What services/gateway/internal/handler/extra.go writes to the table `reservations`: each write
-- follows an edge of the state machine, since it names the status that it expects.
use parkirpintar.Common.{
  ◌+◌, ◌≡◌, refl, ◌⊎◌, inl, inr, Option-cases, List, [], ◌∷◌, none, some, Option, String, arith,
  true, ltb, Bool-cases, ◌&&◌, if◌then◌else◌,
}
use parkirpintar.Common.Time.{Time}
use parkirpintar.Table.{read_rows, select, update, update_where, update_absent}
use parkirpintar.World.{World, next_tick, Result-cases, ok, err, now, call}
use parkirpintar.Reservation.Domain.{Row, Reservation, pending, expired, status_eq}
use parkirpintar.Reservation.Repository.{row_id}
use parkirpintar.Reservation.Transitions.{
  Change, same, moved, Changes, done, Changes-one, Changes-trans, may_become,
}
use parkirpintar.Gateway.Confirmation.{
  ConfirmRequest, is_pending_row, confirm_row, confirm_booking_payment,
}
use parkirpintar.Gateway.Confirming.{
  confirm_booking_payment_success, confirm_booking_payment_failure,
}
use parkirpintar.Gateway.History.{
  expire_row, own_rows, own_history, expire_pending, mark_entry, mark_all, reservation_history,
}

-- A change of the pending row with an id.
update_where-pending :
    (id : String) (f : Row → Row) (rows : List Row)
    → update_where (is_pending_row id) f rows
      ≡ update row_id id (λ r. if status_eq r.status pending then f r else r) rows
unfolding update update_where
update_where-pending id f [] = refl
update_where-pending id f (r ∷ rows) = ground (arith, update_where-pending id f rows)

-- A change of the pending row with an id, to a status that may follow, is one write along the state
-- machine.
pub pending-Change :
    (id : String) (f : Row → Row) (rows : List Row)
    → ((r : Row) → (f r).id ≡ r.id)
    → ((r : Row) → may_become pending (f r).status ≡ true)
    → Change rows (update_where (is_pending_row id) f rows)
pending-Change id f rows keeps edge =
    rw (update_where-pending id f rows) (elim (Option-cases (select row_id id rows)) [
      | inl gone ↦ same (update_absent row_id id _ rows gone)
      | inr (r, found) ↦
          moved id r _ found (λ x. ground (arith, keeps x)) (ground (arith, edge r)) refl
    ])

confirmed-Change :
    (user : Option String) (req : ConfirmRequest) (w : World)
    → Change w.reservations (confirm_booking_payment user (some req) w).1.reservations
confirmed-Change user req w = elim (Result-cases (confirm_booking_payment user (some req) w)) [
  | inl (a, w', e) ↦
      let s = confirm_booking_payment_success user req a w w' e in
      rw (e, s.4)
        (pending-Change req.reservation_id (confirm_row a.confirmed_at) w.reservations (λ r. refl)
          (λ r. refl))
  | inr (t, w', e) ↦ rw e (same (confirm_booking_payment_failure user (some req) t w w' e).0)
]

confirm_nothing :
    (user : Option String) (w : World)
    → (confirm_booking_payment user none w).1.reservations ≡ w.reservations
unfolding confirm_booking_payment
confirm_nothing none w = refl
confirm_nothing (some u) w = refl

pub confirm_booking_payment-Change :
    (user : Option String) (body : Option ConfirmRequest) (w : World)
    → Change w.reservations (confirm_booking_payment user body w).1.reservations
confirm_booking_payment-Change user none w = same (confirm_nothing user w)
confirm_booking_payment-Change user (some req) w = confirmed-Change user req w

expire_pending-Change :
    (id : String) (w : World) → Change w.reservations (expire_pending id w).1.reservations
unfolding expire_pending call
expire_pending-Change id w = elim (Option-cases (w.env.fault w.ticks)) [
  | inl up ↦ rw up (pending-Change id expire_row w.reservations (λ r. refl) (λ r. refl))
  | inr (t, down) ↦ rw down (same refl)
]

mark_entry-Change :
    (t : Time) (r : Reservation) (w : World)
    → Change w.reservations (mark_entry t r w).1.reservations
unfolding mark_entry
mark_entry-Change t r w = elim (Bool-cases (status_eq r.status pending && ltb r.expires_at t)) [
  | inl overdue ↦ rw overdue (expire_pending-Change r.reservation_id w)
  | inr fine ↦ rw fine (same refl)
]

-- The entry that the answer shows.
abbrev pub entry_of : Time → Reservation → Reservation
entry_of t r =
    if status_eq r.status pending && ltb r.expires_at t then record r { status = expired } else r

-- A round of the loop does not end it.
pub mark_entry-ok :
    (t : Time) (r : Reservation) (w : World)
    → mark_entry t r w ≡ (ok (entry_of t r), (mark_entry t r w).1)
unfolding mark_entry
mark_entry-ok t r w = elim (Bool-cases (status_eq r.status pending && ltb r.expires_at t)) [
  | inl overdue ↦ rw overdue refl
  | inr fine ↦ rw fine refl
]

mark_all-cons :
    (t : Time) (r : Reservation) (rs : List Reservation) (w : World)
    → (mark_all t (r ∷ rs) w).1 ≡ (mark_all t rs (mark_entry t r w).1).1
unfolding mark_all
mark_all-cons t r rs w = ground (arith, mark_entry-ok t r w)

mark_all-Changes :
    (t : Time) (rs : List Reservation) (w : World)
    → Changes w.reservations (mark_all t rs w).1.reservations
unfolding mark_all
mark_all-Changes t [] w = done
mark_all-Changes t (r ∷ rs) w = rw (mark_all-cons t r rs w) (
    Changes-trans (Changes-one (mark_entry-Change t r w))
      (mark_all-Changes t rs (mark_entry t r w).1))

pub own_history-up :
    (driver : String) (w : World)
    → w.env.fault w.ticks ≡ none
    → own_history driver w ≡ (ok (read_rows (w.env.cut w.ticks) (own_rows driver w)), next_tick w)
unfolding own_history call own_rows
own_history-up driver w up = rw up refl

pub own_history-down :
    (driver e : String) (w : World)
    → w.env.fault w.ticks ≡ some e
    → own_history driver w ≡ (err e, next_tick w)
unfolding own_history call own_rows
own_history-down driver e w down = rw down refl

reservation_history-paths :
    (user : Option String) (w : World)
    → ((reservation_history user w).1.reservations ≡ w.reservations)
      ⊎ ((t : Time) × (rs : List Reservation) × (v : World) × (v.reservations ≡ w.reservations)
          × ((reservation_history user w) ≡ mark_all t rs v))
unfolding reservation_history now
reservation_history-paths none w = inl refl
reservation_history-paths (some driver) w = elim (Option-cases (w.env.fault w.ticks)) [
  | inl up ↦ inr (
    w.env.clock (w.ticks + 1),
    read_rows (w.env.cut w.ticks) (own_rows driver w),
    next_tick (next_tick w),
    refl,
    ground (arith, own_history-up driver w up),
  )
  | inr (t, down) ↦ inl (ground (arith, own_history-down driver t w down))
]

pub reservation_history-Changes :
    (user : Option String) (w : World)
    → Changes w.reservations (reservation_history user w).1.reservations
reservation_history-Changes user w = elim (reservation_history-paths user w) [
  | inl e ↦ rw e done
  | inr (t, rs, v, kept, e) ↦ rw (e, ← kept) (mark_all-Changes t rs v)
]
